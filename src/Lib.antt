-- ===== src/Lib.antt =====
-- Trominal is an SSH client whose vault (hosts, credentials, identities, snippets) is encrypted end to
-- end. This library models the TypeScript of the client: its cryptographic package, its session stores,
-- the approval of host keys and the web transport.
--
-- Parts, and the files that model them:
--   Shared, Json       Lists, options, results, texts as lists of character codes, decimals; JSON values
--                      with the order and the uniqueness of object keys.
--   Crypto             packages/crypto/src. Wire and Der are the SSH and DER writers of openssh.ts, OpenSsh
--                      its key files; KdfParams is kdf-params.ts and kdf.ts; Sodium names the functions of
--                      libsodium that encrypt.ts calls and what they promise, Toy is one instance of them;
--                      Envelope is envelope.ts, encrypt.ts; TeamKey is team-key.ts.
--   Vault              apps/client/src/features/vault. Records is the encryption of fields in model.ts with
--                      credentials and identities; PrivateKey is private-key.ts, and `unlock` of
--                      stores/vault.ts up to the commit of the key; Rotation is rotation.ts, with the
--                      change of the master password in Rotation/MasterPassword; Ids is ids.ts.
--   Session            apps/client/src/stores and lib/session-teardown.ts. VaultStore is the store of the
--                      vault key with its idle and auto-lock timers, TeamScope the selected team key
--                      (features/teams/store.ts), Auth the login session (auth.ts).
--                      Terminal, Transfers and Tunnels are stores/terminal.ts, features/sftp/transfersStore.ts
--                      and features/tunnels/runtime.ts, and Teardown is session-teardown.ts over all.
--   HostKeys           apps/client/src/features/hosts: the pins of host-keys.ts, the dialog of
--                      host-key-prompt.ts and the gate of use-host-key-gate.ts.
--   Teams              apps/client/src/features/teams: Removal is remove-member.ts over the rotation of a
--                      record in Record (rotate-record.ts), Joining is invite-member.ts and Creation is
--                      create-team.ts; Checks has the requests that ask between their steps whether the
--                      workspace is still current.
--   Transport          packages/ssh-transport/src: the options of types.ts and the sessions of
--                      websocket-transport.ts, with its probe in WebSocket/Probe, and, in Native, of
--                      native-transport.ts.
--   Assistant          apps/client/src/features/ai/adapters: Sse is the parser of sse.ts, and Chat has the
--                      adapters of openai.ts and anthropic.ts with the types and `collectChatText` of
--                      types.ts.
--
-- How they interact: Auth ends a session through Teardown, which locks the vault, clears TeamScope and
-- closes what runs; `unlock` opens the private key envelope with Crypto and hands the key to VaultStore;
-- Records encrypts under the vault key or the team key with associated data that Envelope builds, and
-- Rotation encrypts them again under a new vault key; the gate of HostKeys gives the pins of a desktop
-- session, and a web session of Transport must name a pinned fingerprint before it sends a credential.
--
-- Modelling: a store is a record and each of its functions takes the record to the next one. Code with
-- awaits is cut at them, and a relation of steps puts the parts in any order; reachable states are the
-- states such sequences lead to. Keys are byte lists where they are used and buffer numbers where only
-- their life matters, with a list of the buffers that were zeroed. Texts are lists of character codes.
-- JavaScript numbers are naturals with a case for all others, where the code tells them apart. Thrown
-- errors are values of `Result`.
--
-- Parameters: libsodium (AEAD, sealed box, base64), Argon2id, `JSON.parse`, `atob`, UTF-8, random bytes and
-- the clock are arguments; hypotheses state what the client relies on (an opened ciphertext was sealed
-- under the same key and associated data, a sealed one opens), and Toy shows that they can hold.
--
-- Recursion is structural on lists and numbers. The loop over the frames of an event stream runs on fuel
-- for the length of its buffer: each frame takes at least its two line ends from it. For base 256 and
-- decimal digits the fuel is the number itself, which is enough as each step divides it.
--
-- Not modelled: the record kinds of model.ts beside credentials and identities, the local shell
-- transport, the calls of the desktop backend, the AI suggestions and lists of models, the HTTP client,
-- React components, the PHP server and the Rust backend.
pub mod Shared
pub mod Json
pub mod Crypto
pub mod Assistant
pub mod HostKeys
pub mod Session
pub mod Teams
pub mod Transport
pub mod Vault
