-- ===== src/Lib.antt =====
-- Freedom Names: human-readable names for a peer-to-peer web, with content that nodes host for one
-- another (internal/content, internal/node) and names that are anchored on the Bitcoin Cash chain
-- (internal/bch).
--
-- The parts, and where they stand:
--
-- Content.Store: internal/content/content.go, the blob store. A directory is a map from file names
-- to bytes; Put, Get, Has, Delete, Open and List are put, get, has, delete_blob, open_size and
-- list_blobs. Hashing (ContentHash, IsContentHash) is a parameter, Hashing, of which the law is
-- that the encoded hash of data is a well-formed one. The answer of the operating system to a
-- write is a field of the state.
-- Content.Index: internal/content/contentindex.go, the index of sets. Each method that holds the
-- mutex is one function on ContentIndex: MarkOwned is mark_owned, AddHosted add_hosted,
-- evictLocked evict, releaseClaimsLocked release_claims, touchLocked touch, save save. A Go map is
-- an association list with distinct keys; the theorems that need distinct keys say so by IsMap.
-- The reference sets and the claim counts are ContentIndex.blobs and ContentIndex.pending.
-- Content.Manifest: ChunkLen and DecodeManifest of internal/content/content.go, and chunkReader of
-- internal/node/contentnet.go. JSON decoding, with the magic prefix, is the parameter
-- ManifestFormat; the fetch of a chunk is a function. The loop of Read is a recursion on the
-- chunks that are left.
-- Content.Policy: fitLocked, Admit, Reserve, CommitHosted and Release of the same file. The
-- eviction loop runs on fuel, one round for each indexed set: each round evicts or spares one
-- more, and Policy.Budget proves that the rounds are enough. The order of a Go map's iteration is
-- that of the list, and the theorems hold for every list.
-- Content.Writers: the callers in internal/node/replicate.go (handlePushStream) and
-- internal/node/contentnet.go (Put, Open). A World is an index with the open handles; an Action is
-- one critical section or one write to the store; Reaches is the relation of the worlds that
-- allowed actions lead to, in any interleaving. What the control flow of a caller has ensured
-- before a step is the guard is_allowed. Writer.written is a history variable: the blobs that a
-- handle claimed and then wrote.
-- Bch.Encode, Bch.Token, Bch.Tx: internal/bch/bchtx.go, the writing half: varints, scripts, the
-- CashTokens prefix, the signing preimage and Serialize. The hash functions, the signature and the
-- public key are the parameter Crypto.
-- Bch.Reader, Bch.Parse: the reading half: byteReader, parseTx, splitTokenPrefix, parseOpReturn
-- and p2pkhHash. An int of Go is its 64-bit pattern, with the wrap-around written out, and a slice
-- expression that is out of bounds is the outcome panic. scan_pushes runs on one round of fuel for
-- each byte; where the fuel is out before the loop has ended it answers the error out_of_fuel,
-- which the code does not have, and Parse.Total proves that parse_op_return never does on scripts
-- shorter than 2 ^ 62 bytes.
-- Bch.Wallet, Bch.Wallet.Build: internal/bch/bchwallet.go and internal/bch/marker.go: the coins
-- that the server lists, selectFunding, selectFundingGenesis, BuildClaimTx and BuildRebindTx. Text
-- is its bytes. Values in satoshis are not negative.
--
-- Bch.CashAddr: internal/bch/cashaddr.go: encodeCashAddr, convertBits, polymod and
-- decodeHexLenient as encode_cash_addr, convert_bits, polymod and decode_hex_lenient. The loop
-- that takes groups out of the accumulator runs on a round of fuel for each bit. CashAddr.Checksum
-- has the linearity of polymod, CashAddr.Regroup the bits of the groups, CashAddr.Spec a decoder
-- of the specification, with constants of its own, and CashAddr.Decode the round trip.
--
-- Bch.Registry, Bch.Registry.Resolve, Bch.Registry.Cache: internal/bch/registry_bch.go:
-- winningClaim, resolve, findSpender and currentCommitment as winning_claim, resolve, find_spender
-- and walk, and ResolveOwner with cacheStore as resolve_owner and cache_store. The electrum
-- server's answers, and the parser of public keys, are the parameter Chain. The map of bindings is
-- the list of the keys revealed, the last first. The walk's fuel is maxCustodyHops, which is the
-- code's own bound; the eviction loop of the cache has a round for each entry, and Cache.Bounds
-- proves it enough.
--
-- Record, Record.Names, Record.Validator: internal/record and IsBareName of
-- internal/registry/registry.go. A string is its bytes, an int64 is ℤ. libp2p's keys, the
-- multihash, base36, JSON and IsContentHash are the parameter Codec, SplitKey is a function;
-- net.ParseIP stands in Record.Ip, strings.ToLower is that of ASCII, and the round trip of names
-- is stated for names of ASCII. The time is an argument. sort.Slice is a stable insertion sort.
-- validate, select, verify, sign, canonical_bytes, parse_name and full_name are Validate, Select,
-- Verify, Sign, canonicalBytes, ParseName and FullName; Record.Checks says what the checks mean,
-- Record.Validator.Ranks the order of records.
-- Resolver: internal/resolver: MemoryCache over the LRU cache as the parameter Lru, with its
-- documented laws as Resolver.Served.LruLaws, and Resolve, ResolveType and dhtKeyForName as
-- resolve, resolve_type and dht_key_for. A Request carries the time, the DHT as a function, the
-- registry and the name. Times are nanoseconds.
-- Node.Wire, Node.Push: the wire format of internal/node/contentnet.go and
-- internal/node/replicate.go, and the push protocol: pushOnStream as push_on_stream,
-- handlePushStream as handle_push_stream. A reader is the bytes that are left on it until it
-- closes; what a side writes is a list of bytes. A Go string is a String whose characters are its
-- bytes (Common.Texts). Progress.crashed stands for the panics that indexing the manifest could
-- raise. The loop over the blobs is a recursion on their number.
-- Node.Replicate: the replicator of internal/node/replicate.go: replicate and heal, with place and
-- top_up for their loops. Replicator has the lookups of the DHT and the pushes as functions; an
-- error is none. What is returned beside the result is the list of the peers that were pushed to.
--
-- Interfaces: the push protocol takes the content index, its policy and the manifest format; the
-- resolver takes the record's Codec; the index and its policy take the store's Hashing; the
-- writers take the policy and the index; the transaction, the wallet and the registry take Crypto;
-- the registry takes Chain.
--
-- Not modelled: the electrum connection, libp2p and the DHT, HTTP, DNS and the command line, which
-- are I/O and calls of libraries. Overflow of sizes and times in the content index is not
-- modelled: they are natural numbers.
pub mod Common
pub mod Bch
pub mod Content
pub mod Record
pub mod Resolver
pub mod Node
