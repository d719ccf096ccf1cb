-- ===== src/Lib.antt =====
-- The core of a JavaScript SDK for a hashgraph network: how an entity is named, how a network of
-- nodes is kept and chosen from, how a request is executed with retries, how a transaction is frozen,
-- signed and encoded, how a query is paid, how the parameters of a contract call are laid out, and
-- how the transfers of a transaction are collected into its body. Definitions are translated from the
-- source; theorems are about these definitions.
--
-- The parts and their files, with paths from the root of the repository:
-- * EntityId models src/EntityIdHelper.js: `_checksum` in EntityId/Checksum, `constructor` and `compare`
--   in EntityId/Id, the reading and writing of texts in EntityId/Parse, Solidity addresses in
--   EntityId/Solidity, and `compare` of src/account/AccountId.js in EntityId/Account.
-- * Encoding/Hex models src/encoding/hex.browser.js.
-- * LockList models src/transaction/List.js, which keeps the node ids of a request.
-- * Network models src/ManagedNode.js in Network/Node, and src/client/ManagedNetwork.js with
--   src/client/Network.js in the other files: the state in Network/State, `_readmitNodes`,
--   `increaseBackoff` and `decreaseBackoff` in Network/Readmit, `getNode` and
--   `_getNumberOfMostHealthyNodes` in Network/Choose, `_setNetwork`, `_removeDeadNodes` and the shuffle
--   of src/util.js in Network/Update.
-- * Execute models src/Executable.js: the setters, and `execute` with its loop.
-- * Transfer models src/account/TransferTransaction.js: adding transfers in Transfer/Add, and the lists of
--   `_makeTransactionData` in Transfer/Merge.
-- * Chunks models `freezeWith` and `_makeTransactionData` of src/file/FileAppendTransaction.js and
--   src/topic/TopicMessageSubmitTransaction.js, over the base class of transactions.
-- * Transaction models src/transaction/Transaction.js: the state and the setters in Transaction, `freezeWith`
--   in Transaction/Freeze, `signWith` and `addSignature` in Transaction/Sign, and the encoded transactions
--   with `toBytes` in Transaction/Build. Transaction/Submit puts them together.
-- * Query models src/query/Query.js and src/query/CostQuery.js: `_beforeExecute`, `getCost` and the payment
--   of a request in Query, and `_shouldRetry` of these, of transactions, receipts and records in Query/Retry.
-- * Contract models src/contract/ContractFunctionSelector.js in Contract/Types,
--   src/contract/ContractFunctionParameters.js in Contract/Parameters, and the getters of
--   src/contract/ContractFunctionResult.js in Contract/Result, over typed arrays in Contract/Bytes.
-- * Timestamp models src/Timestamp.js.
-- * Enums models the enumeration classes src/Status.js, src/RequestType.js, src/grpc/GrpcStatus.js,
--   src/FreezeType.js, src/FeeDataType.js, src/token/TokenType.js and src/token/TokenSupplyType.js.
-- * Common holds what they share: lists, options, tests on numbers, and integers.
--
-- How they interact. `execute` asks the network for a node, sends to it if it is healthy, and tells the
-- network of a failure or a success, which moves the node's backoff. The node ids of a request are
-- its list. A transaction is frozen for the nodes of the network, signed, and encoded once for each node; a
-- query pays each node with a transfer of its own. What `_shouldRetry` returns is what the loop of
-- `execute` acts on. The body of a transfer is sorted by the orders of entity and account ids.
--
-- State. A method that changes its object is a function from the state to the new state. Nodes are shared
-- by several lists and a map, so a network has a store of nodes, and the lists hold references. An
-- exception is a constructor of the result, or `none`. The clock, `Math.random` and the answers of the
-- nodes are arguments: times and numbers, or functions of the number of a call. A Promise is the
-- value it resolves to, since the modelled code awaits one call after the other.
--
-- Numbers. A Long is an integer, which becomes the nearest double where the code makes a number of it for
-- an address; the addition of Longs wraps round at 64 bits. Times are natural numbers
-- of ticks of 2^-52 ms, so that a halved backoff is exact. The sizes of the numbers of the checksum are a
-- theorem. Texts are lists of character codes where they are read, and strings where they are only
-- compared.
--
-- Fuel. `hexZeroPadded` runs on fuel, and more fuel than there are zeros to add is enough. The loop of
-- `_getNumberOfMostHealthyNodes` runs on fuel that cannot be enough in every case. The retry loop recurs
-- on the number of attempts that are left. All other loops recur on a list or an index.
--
-- Parameters. `LongText` and `LongBytes` stand for the conversions of the Long library between
-- numbers, texts and bytes, and `LongDivision` for its division. The records `Hooks` and `QueryHooks`
-- stand for what the subclasses and protobuf give a transaction or a query, for `Long.toInt`, and for
-- the margin that a BigNumber adds to a cost. All have instances in the tests. The encoding of a
-- number by the ABI and the hash of a signature are arguments.
--
-- Not modelled: protobuf messages and their conversions, channels, cryptography, logging, and the parts
-- of the SDK that copy fields into messages; reading a transaction back from its bytes, and the getters of
-- a result that decode by the ABI or a BigNumber.
pub mod Common
pub mod Enums
pub mod Encoding
pub mod LockList
pub mod Network
pub mod Execute
pub mod Transfer
pub mod EntityId
pub mod Chunks
pub mod Transaction
pub mod Query
pub mod Contract
pub mod Timestamp
