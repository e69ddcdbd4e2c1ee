-- ===== src/Lib.antt =====
-- Boulder: the core of an ACME certificate authority, modelled from its Go source.
--
-- The program. A client asks the web front end (wfe/) for registrations, authorizations and
-- certificates. The registration authority (ra/) decides: it asks the policy authority (policy/)
-- whether a name may be issued for and which challenges to offer, the storage authority (sa/)
-- for what is stored and counted, the validation authority (va/) whether a challenge was met,
-- and the CA (ca/) for the certificate. These are processes that call each other over gRPC; the
-- objects they exchange are those of core/, the errors those of errors/.
--
-- The files. Each names the code that it is about.
--   Prelude          names of the libraries, Boolean tests, lists, texts, sorting, integers
--   Nonce            nonce/nonce.go: NonceService as a record, Nonce and Valid as functions that pass
--                    it on, a use of the service as a list of operations
--   Features         features/features.go: the flags, with the two maps that Reset makes one
--   Core             core/objects.go, core/challenges.go and core/util.go: challenges, authorizations,
--                    tokens, key authorizations, records, serial numbers, UniqueLowerNames
--   Errors           errors/errors.go: the errors and the results of fallible calls; sa/rollback.go
--   Ratelimit        ratelimit/rate-limits.go: policies and thresholds
--   Policy           policy/pa.go: WillingToIssue, checkHostLists, ChallengesFor
--   Csr              csr/csr.go: VerifyCSR and normalizeCSR
--   Probs            probs/probs.go: the problems and their HTTP statuses
--   Goodkey          goodkey/good_key.go: the checks on RSA and ECDSA keys
--   Sa               sa/sa.go, sa/authz.go, sa/model.go and sa/rollback.go: the tables as lists of rows,
--                    the operations on them as transactions, and the queries. Sa.Authz has authorizations,
--                    Sa.Operations the calls that write them, Sa.GetAuthz reads one,
--                    Sa.Phase their abstract state machine and Sa.Refinement that the tables implement it;
--                    Sa.Revoke is the revocation by domain, Sa.Certificates and Sa.CertDb certificates and
--                    their status, Sa.Registrations accounts, Sa.IssuedNames their counts by
--                    name, Sa.IpRange the ranges of addresses
--   Ra               ra/ra.go: the rate limits, NewAuthorization, checkAuthorizations,
--                    NewCertificate, MatchesCSR, UpdateAuthorization, the validation that it starts,
--                    onValidationUpdate; Ra.Registrations has mergeUpdate and the checks on contacts,
--                    Ra.Accounts the calls on registrations,
--                    Ra.Revocation the revocation of certificates
--   Rpc              grpc/bcodes.go: how an error crosses the RPC layer
--   Wfe              wfe/probs.go: the problem that a client gets for an error
--
-- How the model corresponds to the code. A struct is a record, a string constant of a closed set
-- a constructor, a string or byte slice the list of its bytes (Text), a map an association list,
-- a time or a duration an integer number of nanoseconds, a nil pointer `none`. A function that
-- changes state takes it and returns the new one; one that returns an error is a Result, or an
-- Option Error where it returns nothing else. A clock's reading is an argument. A call whose two
-- readings of the clock matter takes one time for both. Locks make an operation one step. Lower
-- case is that of the ASCII letters: strings.ToLower also turns U+0130 and U+212A into ASCII
-- letters, and the model leaves their bytes as they are.
--
-- Code that is not in the repository is a parameter: the cipher and base64 (Nonce.Defs.Cipher),
-- JSON (Sa.Model.Codec), the public suffix list and idna (Policy.Defs.Names), YAML, the random
-- permutations and tokens, crypto/x509 and SHA-256 (Sa.Certificates.Crypto), the curves
-- (Goodkey.Defs.Curve), the parsers and the DNS of contacts (Ra.Registrations.Parsers), strconv
-- and fmt (Rpc.Bcodes.Texts). MySQL's comparisons of texts are Sa.IssuedNames.Collation. Cipher
-- carries as laws what the code relies on, and a theorem that needs what MySQL, JSON or strconv
-- document takes it as a hypothesis. What the registration authority asks of other processes is
-- Ra.Issue.Services, Ra.NewAuthz.AuthzServices and Ra.Limits.Counts. A statement of a
-- transaction may fail: the failures are an argument (Sa.Db.Faults), and a theorem that needs
-- some of them to be absent says so. A transaction whose body fails leaves the tables as they were: that the code
-- rolls back on each such return is built into the model, not proved.
--
-- Bounds and fuel. A nonce's counter is 8 bytes of an int64; the table of used nonces holds
-- 65536. A serial number is written with fuel that exceeds it, so that no digit is lost.
-- NewPendingAuthorization draws tokens until one is new: the model takes the tokens as a list,
-- and fails when it ends, which the code cannot. RevokeAuthorizationsByDomain loops until no
-- live authorization is left: its fuel is enough if it exceeds the number of live rows of each
-- table, since a batch that is not empty revokes one at least; Sa.Operations gives it more than
-- there are rows, whichever statements fail. Slices of Go that two names share are modelled
-- where a property depends on it (the two maps of features/).
--
-- Not modelled: SCT receipts and the counts of registrations by address in sa/; the messages and
-- the wrappers of grpc/; the requests of wfe/; logging, metrics and the submission to CT logs;
-- and the other processes (va/, ca/, cmd/).
pub mod Prelude
pub mod Nonce
pub mod Features
pub mod Goodkey
pub mod Core
pub mod Errors
pub mod Ratelimit
pub mod Policy
pub mod Probs
pub mod Rpc
pub mod Wfe
pub mod Sa
pub mod Ra
pub mod Csr
