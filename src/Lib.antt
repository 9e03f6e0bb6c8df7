-- ===== src/Lib.antt =====
-- Flare Studio turns a private policy (who gets which share of a balance, and when) into a contract
-- that holds only a commitment, and a payload that only an enclave can read. This library models
-- the repository's TypeScript code and proves what makes it correct.
--
-- Base: what the source takes from JavaScript. Texts are lists of UTF-16 code units (Base/Text),
-- integers are ℤ over the native ℕ (Base/Int), values are JSON values with `undefined` and bigint
-- (Base/Value), with `JSON.stringify` (Base/Json), decimal numerals (Base/Decimal), the order of
-- texts (Base/Order) and UTF-8 (Base/Utf8). Base/Results has the results of code that can throw.
--
-- Policy, for packages/policy/src:
--   Policy/Assets      assets.ts: the registry, getAsset, liveAssets
--   Policy/Schema      schema.ts: the policy representation, its shape, superRefine, safeParse
--   Policy/Canonical   commitment.ts: canonicalize and sortKeys
--   Policy/Commitment  commitment.ts: computeCommitment
--   Policy/Compile     compile.ts: compile, shareCommitmentSet
--   Policy/Shares      compile.ts: resolveDistributions
--   Policy/TeeInfo     tee-info.ts: the enclave's public key
--   Policy/Payments    chain-payments.ts: the reference of a proof-of-life payment
--   Policy/Templates   templates/: the two templates, the registry, the gallery in sections
--   Policy/Ecies       ecies.ts: eciesEncrypt, eciesDecrypt, concatKDF, the forms of a key
-- `compile` parses with Schema, looks the asset up in Assets, commits with Commitment, and writes
-- the enclave's payload with Canonical. zod (`ShapeParser`) and viem's encoder and hash (`Viem`) are
-- parameters. Numbers that the schema makes nonnegative integers are naturals; the balance that
-- `resolveDistributions` divides is any integer. A price keeps its numeral and its sign, since the
-- compiler only copies it. The curve, the hash and the cipher of @noble are the record `Noble`, with the
-- laws that the code relies on in `NobleLaws`; the random bytes of an encryption are arguments.
-- Policy/Ecies/Sealed puts the compiler and the encryption together.
--
-- Extension, for apps/extension/typescript/src:
--   Extension/Encoding   base/encoding.ts: hexadecimal texts and bytes32 identifiers
--   Extension/Framework  base/types.ts: the registry of handlers
--   Extension/Server     base/server.ts: handleRequest, processAction, processState, serialize
--   Extension/Node       base/node.ts: decrypt and post of the client of the signing node
--   Extension/Handlers   app/handlers.ts, app/abi.ts, app/config.ts: the greeting operations
-- A handler is a function on the extension's state, which it returns or throws from; the server
-- passes the state along. An exception that leaves `handleRequest` is the answer `crash`, and `unlogged`
-- if it is that of the line which logs a result.
-- `serialize` is the order of the list that `serve_all` runs through. `JSON.parse`, `TextDecoder`
-- and viem's ABI decoder are parameters (`Platform`, `Abi`). Sockets are not modelled, nor what the
-- console prints.
--
-- Web, for apps/web:
--   Web/Chain         lib/chain.ts: which contracts are configured
--   Web/Thrown        lib/deploy.ts: message; lib/wallet.ts: walletErrorMessage
--   Web/Enclave       lib/deploy.ts: fetchTeePublicKey, probeEnclaveKey
--   Web/Vault         lib/vault.ts: saveEntry, getEntry, allEntries
--   Web/StorePolicy   lib/store-policy.ts: storePolicyOnChain
--   Web/Steps         lib/deploy.ts: DeployStep and the patches of it
--   Web/TriggerSetup  lib/deploy.ts: triggerAddress, configureRequest
--   Web/Transactions  lib/deploy.ts: the state of a deployment, and its calls with their receipts
--   Web/Deploy        lib/deploy.ts: deployPolicy, in stages
--   Web/Triggers      lib/triggers.ts: the kinds of triggers, switchTriggerKind
--   Web/Durations     lib/triggers.ts: splitDuration, joinDuration; lib/canvas.ts: formatInterval
--   Web/Canvas        lib/canvas.ts: graphFromIr and the descriptions
--   Web/Inspector     lib/inspector.ts: inspectorFor
--   Web/Form          components/policy-form.tsx: the steps and their buttons
--   Web/Recipients    components/recipients-editor.tsx: the changes of the list
--   Web/Studio        app/studio/[templateId]/page.tsx and components/review-drawer.tsx: the draft that is
--                     reviewed
--   Web/Amounts       the readings of typed amounts: parseAmount, safeParse, safeFormat
--   Web/Display       components/primitives.tsx: how amounts, addresses and durations are written
--   Web/Vault/Storage lib/vault.ts: the vault in the browser's storage
--   Web/InfoRoute     app/api/enclave/info/route.ts: GET
--   Web/Policies      lib/policies.ts: listPolicies, readPolicy
--   Web/Wallet        lib/wallet.ts: useWallet
--   Web/Monitor       app/policies/[address]/page.tsx: the page of a policy and its writes
-- A deployment passes along a state `Run`: the world behind the wallet and the chain, which every call
-- may change, the steps shown to the user, the calls handed to the wallet, and the vault. viem's
-- clients, `fetch`, the encryption to the enclave's key and the clock are the parameter `Env`, and an
-- answer of theirs may be an exception; so may that of the wallet's client, which throws where no wallet
-- is injected, and of the storage, which may not take the entries (`injected`, `store`). What leaves
-- `deployPolicy` is a DeployError or such an exception (`DeployFailure`). The vault is the list of its
-- entries, which Web/Vault/Storage keeps in the browser's storage, a parameter. The pages are what their handlers do to
-- the state of the page; the chain that a page reads is a function of the world, and a write of the page
-- is recorded among its calls. A draft has typed parts, a case for a part of an unknown kind among them.
--
-- Orchestrator, for apps/orchestrator/src:
--   Orchestrator/Instructions  instructions.ts: send, sendStorePolicy, sendEvaluatePolicy
--   Orchestrator/Polling       instructions.ts: pollActionResult
--   Orchestrator/Results       instructions.ts: decodeActionData; policy.ts: asHexBytes
--   Orchestrator/Policies      policy.ts: evaluatePolicy, executePolicy
-- It relays between the chain and the enclave: what a handler of the extension reports is what it
-- decodes. viem's clients (`Clients`), the clock with `fetch` (`Timer`) and Node's decoders (`Node`)
-- are parameters; the laws of `Timer` are that no call turns the clock back and that a wait takes the
-- time asked for.
--
-- The loop of `pollActionResult` is run on fuel, one round for each millisecond of its timeout and one
-- more: a wait of at least a millisecond in each round makes that enough, as is proved. The loop of
-- `concatKDF` is run on as much fuel as bytes are asked for, which is enough for a hash that gives any.
-- Every other loop goes through a list or counts down, and the model recurs on the same.
--
-- Not modelled: the Solidity contracts, the Go and Python ports of the extension, the scripts, the
-- elements that the React components return, and what the network, the browser's storage and the crypto
-- libraries do.
pub mod Base
pub mod Policy
pub mod Extension
pub mod Web
pub mod Orchestrator
