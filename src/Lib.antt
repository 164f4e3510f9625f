-- ===== src/Lib.antt =====
-- Verification of the browser client of Elvish mail: plain JavaScript under static/.
--
-- The parts and how they interact. The mail page runs the mail filters over the inbox: the engine
-- (static/mail/mail-filter-engine.js) normalises the rules, picks one rule for each message,
-- applies its actions through the REST client and notes what was applied in the ledger
-- (static/mail/mail-filter-ledger.js), which lives in localStorage. The key vault
-- (static/auth/unlock.js) holds the unlocked account key and the identity keys in memory and a copy
-- of the account key in one of the web storages; its fingerprints are compared with those of
-- static/mail/lib/mail-address.js. The search worker cuts the decrypted bodies into terms
-- (static/mail/search/tokenize.js) and answers the requests of static/mail/search/search.js. New
-- identities get their addresses from static/mail/mail-manifest.js. The mail cache
-- (static/mail/mail-cache.js) keeps headers and envelopes, sealed with a key of the vault. The
-- service worker (static/sw.js) answers the page's requests. Signing in runs SRP-6a
-- (static/auth/srp.js) against internal/pake/srp.go, and the account key is wrapped under the
-- password (static/auth/keygen.js).
--
-- Which file models which part. Base and its modules: strings (code units), dictionaries, lists.
-- Filters.Ledger, Filters.Match, Filters.Rules, Filters.Actions and Filters.Pass: the ledger's
-- readStore, writeStore, syncRulesHash, alreadyApplied, record and pruneMissingMessages;
-- buildContext and conditionMatches; normalizeRules and pickFirstMatchingRule; actionFingerprint
-- and applyActions; runInboxFilterPass as a state with the step `end_job`, whose jobs share the
-- variables of their call of pump. Vault.Storage, Vault.Fingerprint, Vault.State and Vault.Unlock:
-- storage, the trusted flag and the cache; the normal forms; touch and zero;
-- hydrateUnlockedAccount, unlockAccount, tryRestoreAccountFromSession, unlockIdentity,
-- ensureIdentityUnlocked and the lookups. The rest of static/auth/unlock.js is in Messages: Armor
-- (extractArmoredBlock and the like), Signatures (summarizeSignatureVerification), Mime.Headers,
-- Mime.Transfer and Mime.Payload (parseMimeHeaders, decodeTransferBytes, extractPGPMimePayload),
-- Nested (verifyNestedSignedPayloadAfterDecrypt), Decrypt (readEncryptedMessage to
-- tryDefaultDecrypt) and Keys (exporting, seeds, encrypting, signing), with what they use of
-- OpenPGP.js in Api. Srp: modPow, bigIntToBytes and the like; Srp.Session: createRegistration,
-- begin and clientProof, with NewServerSession of the server. Keygen: deriveKEK, aesWrap, aesUnwrap
-- and rewrapAccountForNewPassword. ServiceWorker: the listener of "fetch", cacheFirst,
-- staleWhileRevalidate, install and activate. Search.Terms: tokenize and uniqueTerms.
-- Search.Client: the requests of LocalSearch and the worker's replies, a step relation.
-- Search.Postings: handleIndex and writePostings, with the transaction that they write in.
-- Search.Merge: searchAll. Identities: parseAccountAddress to buildGeneratedIdentityAddress.
-- MailCache: the class MailCache, whose database outlives the page. Envelope: validateManifest of
-- static/mail/crypto/envelope.js, with each thrown error as a constructor. A function keeps its
-- name in snake_case; an operation takes the state that it changes and returns it.
--
-- Bounds and fuel. Numbers are natural numbers; the 32-bit hash of the rules wraps as it does in
-- the source, and eight digits print it. The mutual recursion of `storage` and
-- `readTrustedDeviceFlag` takes the number of stack frames that are left, which is no bound of the
-- model but what the program runs on. The loops of `modPow` and `bigIntToBytes` take their number
-- as fuel, and their results are shown to be right without a condition on it. Every other loop is
-- structural.
--
-- What stands outside. The case mappings and the collation of the host (`Unicode`), OpenPGP.js,
-- WebCrypto and static/auth/keygen.js (`OpenPgp`, `MessageApi`, and `KeyCrypto` where
-- static/auth/keygen.js itself is modelled), TextEncoder and atob (`Codec`), SHA-256 and UTF-8 of
-- the sign-in (`Digest`), the sealing of static/mail/search/key.js (`Sealing`, `IndexSealing`),
-- JSON.stringify of the rules, the segments of Intl.Segmenter and the server's answers are
-- arguments. That an IndexedDB transaction commits while WebCrypto is awaited, and refuses requests
-- after it, is written into the transaction of the search index. Not modelled: message ids that
-- equal a name which every object inherits, the interleaving of two tabs on one storage, the
-- request for the identity rows, the ranking of the search index and its database, the REST client,
-- the React components, and the Go server but for the session of SRP.
pub mod Base
pub mod Filters
pub mod Vault
pub mod ServiceWorker
pub mod Srp
pub mod Keygen
pub mod Search
pub mod Identities
pub mod MailCache
pub mod Envelope
pub mod Messages
