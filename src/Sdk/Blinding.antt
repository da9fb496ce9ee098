-- ===== src/Sdk/Blinding.antt =====
-- blinding.ts: amounts split into denominations. Amounts are integers here; the source also
-- refuses what is no safe integer, negative numbers among them, and so does the model.
pub mod Decompose
use picocash.Prelude.{ℕ, zero, suc, ◌+◌, ◌-◌, ◌^◌, List, [], ◌∷◌, Bool, ◌==◌, leb, if◌then◌else◌}
use picocash.Result.{Result, ok, err}

pub data DecomposeError : Type 0 where
  not_positive out_of_range : DecomposeError

-- `for (let pow = n - 1; pow >= 0; pow--)`: the parts, and what is left of the amount.
unfoldable pub split : ℕ → ℕ → List ℕ × ℕ
split zero amount = ([], amount)
split (suc pow) amount =
    let fits = leb (2 ^ pow) amount in
    let (parts, rest) = split pow (if fits then amount - 2 ^ pow else amount) in
    (if fits then (2 ^ pow) ∷ parts else parts, rest)

abbrev pub max_safe_integer : ℕ
max_safe_integer = 2 ^ 53 - 1

unfoldable pub decompose : ℕ → Result DecomposeError (List ℕ)
decompose amount =
    if amount == 0
    then err not_positive
    else if leb amount max_safe_integer
    then (let (parts, rest) = split 31 amount in if rest == 0 then ok parts else err out_of_range)
    else err not_positive
