-- ===== src/Lib.antt =====
-- picocash: a mint of blind-signed ecash, its client library, a payment method over them and a monitor
-- of reserves, modelled handler by handler.
--
-- The mint (packages/mint) keeps four tables: quotes for deposits, spent secrets, melts (payouts)
-- and blind signatures. A client asks for a quote, pays it, has tokens issued for it, swaps tokens
-- for fresh ones of the same total, and melts tokens into a payout on a chain. The client library
-- (packages/sdk) splits amounts into denominations and keeps a wallet's proofs.
--
-- Mint/Data is errors.ts, keyset.ts, validation.ts and the schema of db-core.ts, with `db.tx` of
-- db.ts as `transact`; Table holds the SQL statements the handlers use. Mint/Signing is signing.ts,
-- Mint/Solvency is solvency.ts, Mint/Swap, Mint/Issue, Mint/Melt and Mint/Relay are routes/swap.ts,
-- routes/mint.ts, routes/melt.ts and routes/relay.ts, all under packages/mint/src, and
-- Mint/Credit is vault-credit.ts beside them, with a table of its own. Mint/Tempo is vault-tempo.ts, the
-- oracle that scans the chain for deposits, and Mint/FakeVault the one of vault.ts; to the handlers an
-- oracle is any function. Mint/Server runs
-- the handlers of app.ts that write the four tables, one request after the other; each request sees
-- its own answer of the deposit oracle and its own clock, read once. The relay has a table of its
-- own. Mint/Invariant states the books of the mint, the modules called Outcome describe each handler's
-- result on every path, and Mint/Attribution relates the signatures recorded for a quote to its
-- state. Sdk/Blinding and Sdk/Store are blinding.ts and store.ts of packages/sdk/src, and Crypto/P2pk
-- is p2pk.ts of packages/crypto/src: the key pattern, the reading of numbers and the check of one
-- signature are its parameters, and Crypto/P2pk/Secret adds secrets and witnesses as text, behind JSON
-- (`SecretText`). Sdk/Locks, Sdk/Secrets, Sdk/Token and Sdk/Wallet are p2pk.ts, secrets.ts, token.ts and
-- wallet.ts of packages/sdk/src; to the wallet the mint is `MintApi`, an answer to each request, of
-- which nothing is assumed. Acceptor/Agent is agent.ts of packages/mppx-method/src, which pays with it, and
-- Acceptor/Adapter is mppx.ts beside it, the method behind the mppx library.
--
-- Mcp is wallet-service.ts of packages/mcp/src, the wallet behind the tools of an agent, with the signer of
-- nostr.ts of packages/sdk/src; what the mppx library does with a request is a script of challenges.
--
-- Acceptor is the service side of the payment method (packages/mppx-method/src): a service issues
-- challenges, accepts credentials offline and settles them at the mint later. Acceptor and
-- Acceptor/Settle are types.ts and acceptor.ts, with verify.ts of packages/sdk/src, over any
-- `AcceptorStore`; Acceptor/Memory is the store in memory, a `Map` being Dict; Acceptor/Claims is
-- `accept` and `hasAnyY` of kv-store.ts, as threads that share the store of claims, in any
-- interleaving, with calls that die and deletions that fail; no claim expires there. Acceptor/Pipeline states what an accepted
-- credential meets and what a store promises. What the acceptor calls of packages/crypto and of the
-- parsers of secrets is the interface `Proofs`, of which nothing is assumed.
--
-- Crypto/Curve, Crypto/Bdhke and Crypto/Dleq are points.ts with hashToCurve.ts, bdhke.ts and dleq.ts of
-- packages/crypto/src, over the points, encodings and hashes of the @noble packages (`Curve`), whose
-- laws are `IsCurve` of Crypto/Curve/Laws: a group of an order of at most 2 ^ 256 in which no point but
-- the infinite one is annihilated by a smaller factor, an encoding that parses back, and a hash of 32
-- bytes. `search_point` runs on the 65536 iterations of the source. Sdk/Outputs is the rest of
-- blinding.ts, over a codec of hexadecimal text (`Hex`).
--
-- Reserves is the monitor of apps/reserves/src, which compares what issuers report with the chains:
-- Reserves/Checks is checks.ts without its labels and sentences, Reserves/Collisions is collisions.ts,
-- and Reserves/History is the history of store.ts.
--
-- Text that the code only compares, sorts at one length or passes on is numbered (`Text`). Amounts
-- are numbers of ℕ, and differences are integers: the source keeps both on doubles, which are exact
-- below 2 ^ 53. An issuer's figures are not negative in the model. To the mint the cryptography is the
-- interface `Crypto`, the payout is an `Executor` over an arbitrary state of the chain, and neither is
-- assumed to have any property. `split` of blinding.ts runs its loop on its own counter, 31 exponents.
--
-- Handlers of the mint run one after another: its concurrent requests, failures of the database between
-- statements, exceptions of the deposit oracle, schemas of validation.ts beyond the fields used, key
-- derivation, HTML pages, the figures that a vault shows of itself, payouts on the chain and storage on
-- disk are not modelled; nor are the requests of the wallet as HTTP, links to tokens, relays of nostr, the
-- tools around the wallet of packages/mcp, and the refresh of the monitor with the services that it reads.
-- A scan runs on the number of blocks it has to cover, and a retry on the five attempts of the source.
pub mod Prelude
pub mod Result
pub mod Table
pub mod Mint
pub mod Sdk
pub mod Crypto
pub mod Dict
pub mod Acceptor
pub mod Reserves
pub mod Mcp
