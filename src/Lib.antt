-- ===== src/Lib.antt =====
-- Labyrinth Vault: models of the code that carries a payment between an online wallet and an offline
-- vault, and the theorems about them.
--
-- The system has two halves. The wallet (wallet/src/core) is online and holds no key: it chooses
-- coins, builds a draft, shows it as a series of QR frames, reads the vault's answer back the same
-- way, compares it with the draft, and publishes it. The vault (src/keys) signs, writes the
-- transaction, and has no network.
-- Between them stands the wire (src/airgap): frames, checksums, base32 and CBOR. Everything that
-- comes through a camera is untrusted, so the theorems are about what the code hands on: which
-- bytes, from which frames, and which state of the send flow may publish.
--
-- Files and code:
--   Prelude        tests, lists, strings (lists of UTF-16 code units), numerals, the 32-bit
--                  operations (`bit_and`, `bit_or`, `bit_xor`, and `% 2 ^ 32` where the code shifts),
--                  and integers for the amounts that may be negative
--   Airgap/Base32  src/airgap/envelope.ts, base32Encode and base32Decode
--   Airgap/Crc     src/airgap/envelope.ts, crc32 and digestOf
--   Airgap/Envelope  src/airgap/envelope.ts, encodeParts, parsePart and the class Collector, whose
--                  `offer` takes a state and a frame's text and gives the new state and the progress
--   Airgap/Cbor    src/airgap/cbor.ts, the strict reader and the two writers
--   Airgap/Bytewords  src/airgap/bytewords.ts, the table of words and its three styles
--   Airgap/Bbqr    src/airgap/bbqr.ts, the frames, their header and the reassembly
--   Airgap/Fountain  src/airgap/fountain.ts, xorInto; Fountain/Choice, shuffle and
--                  chooseFragments over a generator
--   Airgap/Ur      src/airgap/ur.ts, the encoder and the parser of a frame; Ur/Pieces and
--                  Ur/Collector, the class UrCollector with its queue and its mixtures
--   Airgap/Base43  src/airgap/base43.ts, bytes for one QR code
--   Airgap/Scanner  src/airgap/scanner.ts, one camera over the two collectors
--   Keys/Hex       src/keys/monero.ts, toHex and fromHex
--   Keys/Varint, Keys/Chunks, Keys/Extra, Keys/Offsets, Keys/Weight, Keys/Wire
--                  src/keys/monerowire.ts, the bytes of a Monero transaction
--   Keys/Archive   src/keys/binaryarchive.ts, the reader of Monero's binary archive, with the
--                  refusals as values
--   Wallet/Model   wallet/src/core/model.ts and build.ts, drafts and verdicts
--   Wallet/Addresses  wallet/src/core/addresses.ts, canonicalBtcAddress
--   Wallet/Coins   wallet/src/core/build.ts, fees, selectCoins and maxSendable
--   Wallet/Change  wallet/src/core/build.ts, nextChangeIndex
--   Wallet/Prepare  wallet/src/core/build.ts, prepare
--   Wallet/Signgate  wallet/src/core/signgate.ts, decide, and canSignHere of keyvault.ts
--   Wallet/Verify  wallet/src/core/build.ts, verifySigned
--   Wallet/Units   wallet/src/core/units.ts, amounts on a screen and as they are typed, and
--                  chunkAddress of coinpick.ts
--   Wallet/Wire    wallet/src/core/wire.ts, a transmission in the vault's format
--   Wallet/Monero  wallet/src/core/monerospend.ts: Fees, estimateWeight and feeFor; Inputs,
--                  selectInputs; Unsigned, assembleUnsigned; Decoys, decoys.ts with its draws as
--                  parameters; Node, outs of wallet/src/net/monerod.ts and distributionFor of
--                  moneroplan.ts; Plan, planMoneroSpend over Inputs, Decoys, Node and Unsigned
--   Wallet/Session  wallet/src/core/session.ts, reduce, canBroadcast and journeyReached
-- The Runs files hold concrete runs of the code.
--
-- A class or an object that the code changes is a record that the operation takes and gives back; a
-- `Map` is an association list, a `Set` a list without copies. `null` and an exception are `none`
-- where the model has no outcome of its own for them, as it has in Prepare, Plan and Archive.
-- Loops over a list or up to a bound are structural recursion. The depth that the CBOR reader stops
-- at is the source's own bound, five levels. Two loops that cut (a text into groups, a message into
-- fragments) have as much fuel as there are characters or bytes, which is enough because every step
-- takes at least one. The digits and the varint of a number have as much fuel as the number. The
-- padding of a range proof is searched up to 2^30 outputs, where the source's `1 << k` still is a
-- power of two. The UR collector's loop over its queue has as much as rounds_left counts, and that
-- it ends on it is a theorem below.
--
-- Parameters: the Bitcoin library's address codec, PSBT builder and transaction parser
-- (@scure/btc-signer), SHA-256 and Keccak, TextDecoder, the opened account key, and the type of a
-- transmission, which the send flow only holds. What a monerod answers is a parameter. Which
-- fragments a UR frame mixes is a parameter too: the code draws doubles from a seeded generator,
-- and the theorems on whole messages ask that the indexes are in range and distinct and that the
-- first frames carry one fragment each. In Fountain/Choice only the generator, its seed and the
-- degree are parameters, with draws that lie in the range asked for; in the code a draw whose
-- double rounds up to 1 does not. What a theorem needs of them is among its hypotheses. A fee rate
-- is a fraction of natural numbers, and the rounding of doubles is not modelled.
--
-- Not modelled: the screens, the native apps, the network clients and the site, which are views and
-- I/O; the vendored C code; the cryptography of src/keys, and the parts that PROJECT.json lists.
pub mod Prelude
pub mod Airgap
pub mod Keys
pub mod Wallet
