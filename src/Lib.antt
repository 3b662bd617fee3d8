-- ===== src/Lib.antt =====
-- The scheduler of the CESS storage network.
--
-- The program stands between users, storage miners and the chain. A user uploads the shards of a file
-- over a TCP connection (node/handler.go); the scheduler stores them on its disk, hands them on to
-- miners and registers the file on the chain. It also reads the miners' storage proofs from the chain,
-- verifies them, and submits the verdicts (node/sub_verifyProofs.go). All of this rests on a client of
-- the chain (pkg/chain) and on the arithmetic of the proofs (pkg/proof).
--
-- The files, and the code that each models:
--   Prelude: numbers, byte strings, lists and integers that the other files share. A byte is a number, a
--     []byte or a string is a list of bytes.
--   Utils.Text: strings.Split, strconv.Atoi, hex.EncodeToString; IsIPv4 of pkg/utils/common.go.
--     Utils.Text.Decimal: fmt's %d. Utils.Random: RandSlice of pkg/utils/common.go, GetRandomcode and RandStr of
--     pkg/utils/randomX.go, over the numbers that are drawn.
--   Utils.Address: pkg/utils/ss58_transform.go. base58 and blake2b are a record Crypto, whose documented
--     behaviour is the record IsLawful in Utils.Address.RoundTrip.
--   Chain.Types: pkg/chain/types.go. Chain.Client: NewChainClient and the connection of
--     pkg/chain/client.go.
--   Chain.Query: pkg/chain/chainState.go, one function for each query. Chain.Submit:
--     pkg/chain/transaction.go, one function for each transaction: Register, SubmitFileMeta,
--     SubmitFillerMeta, SubmitProofResults and Update are register, submit_file_meta and so on. The
--     answers of the chain's node and of the substrate library are arguments (Link, Storage, Network).
--     A Go panic is a result, `panicked`.
--   Proof.Challenge, Proof.Verify, Proof.Split: PoDR2ChallengeGenerateFromChain, VerifyProof and SplitV2
--     of pkg/proof. The goroutines of VerifyProof multiply in an order that is an argument.
--   Proof.Prover: SigGen, GenerateSigma and GenProof of pkg/proof (sigGen.go, genProof.go), a scheme over a
--     pairing beside the RSA scheme of VerifyProof; Proof.Prover.ChalGen: ChalGen of
--     pkg/proof/chalGen.go. The library pbc is a record Pairing, whose laws are the record IsLawful in
--     Proof.Prover.Group; JSON, SHA-256 and the Merkle tree are a ProofEnv.
--   Proof.Key: GetKey and SetKey of pkg/proof/keyGen.go, and the lines of node/sub_filler.go that set the key.
--   Node.Message: the messages of node/msg.go. Node.Checks: node/utils.go.
--   Node.Receive: ConMgr.handler of node/handler.go. Conn is the state of a ConMgr with the disk, the
--     messages that were sent and the backups that were started. `handle` is one round of the loop.
--     Node.Receive.Protocol: the upload protocol without notifications, errors and panics, as a step relation.
--   Node.Send: ConMgr.sendSingleFile of node/handler.go. Node.SendAll: ConMgr.sendFile, its loop.
--   Node.Wire: sendMsg and readMsg of node/transfer.go on the bytes of a connection, with encoding/json as
--     a Codec; ConnectionFiltering of node/node.go.
--   Node.Backup: backupFile of node/handler.go, with what it meets on the way as a Market. Node.Manage:
--     FileBackupManagement of node/handler.go, whose cache entries are a list.
--   Node.MinerCache: one pass of task_MinerCache of node/sub_minerCache.go over the miners.
--   Node.Filler: storagefiller of node/sub_space.go and combineFillerMeta of node/handler.go. Node.Space: the
--     loop of task_Space around it.
--   Node.Tasks: CoroutineMgr of node/sub_main.go as steps of goroutines and channels, task_Common of
--     node/sub_common.go. Node.Accept: the loop of Node.Run of node/node.go, and the black list of node/param.go.
--   Node.Tags: GenerateFiller and RequestAndSaveTag of node/sub_filler.go, GetTag of node/route.go.
--     Node.Tags.System: the task, the service of tags, GetTag's goroutines and the consumer as steps on the
--     channels of node/param.go. Node.Tags.Content: generateFiller, the text of a filler.
--   Node.Proofs: node/sub_verifyProofs.go, with workLock and the submitted lists as the state.
--   Erasure: pkg/erasure/reedsolomon.go. Erasure.Encode: ReedSolomon and reedSolomonRule, with float64 as a
--     record Float64. Erasure.Restore: ReedSolomon_Restore and openInput. The disk is a function from paths
--     to contents; klauspost/reedsolomon is a record Coder, whose documented behaviour is the record IsCoder
--     in Erasure.Restore.RoundTrip.
--   Cache: pkg/db, whose store is a function from keys. Logger: pkg/logger, and the lines that its methods write.
--   Config: Parse of pkg/confile/confile.go.
--   Console: updateCmd of cmd/console/update.go. Console.Run: runCmd of cmd/console/run.go, with what the chain
--     and the libraries answer as a Boot. Console.Startup: how a part of it ends. Console.Directories: buildDir,
--     MkdirAll and RemoveAll over a disk that is a list of paths.
--   Examples: tests of the models and the theorems at concrete inputs.
-- Where a component has theorems, they stand in the child modules of its file.
--
-- Bounds and fuel. A nonce is a uint32 and wraps; a port and the parts of an address are cut to their
-- types; a size that is read as int64 must be below 2^63; a try counter is a uint8 and wraps. The retry
-- loop of the transactions has twenty rounds, as in the code. send_chunks runs on the length of the file
-- and one, and each round but the last reads at least one byte. get_file_state_from has four rounds, which
-- `try_count <= 3` allows, and submit_meta has four, since the fourth error returns. submit_loop,
-- backup_chunks and submit_fillers run on fuel that is an argument: the number of calls that are made, on
-- which the code sets no bound. read_msgs runs on a number of rounds; one for each message is enough.
-- rand_loop has a round for each byte, and each round writes one. sync_block runs on the answers that are given,
-- and says where they end.
--
-- Not modelled: sockets and HTTP (node/callback.go), the seeds of random numbers, the sleeps of the tasks, the
-- encoding and rotation of log files, the files of leveldb, the making of keys, the hashing of files, and the
-- commands of cmd that print. They are I/O around libraries. A lock is modelled where a panic can leave it held.
-- Timers appear as the case in which nothing came.
pub mod Prelude
pub mod Utils
pub mod Chain
pub mod Proof
pub mod Erasure
pub mod Node
pub mod Cache
pub mod Logger
pub mod Config
pub mod Console
pub mod Examples
