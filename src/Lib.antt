-- ===== src/Lib.antt =====
-- Mantis, a trading engine in Rust: its order book, its market state engine, its order tracker and
-- position accounting, its queue position estimator, its instrument registry, its fixed-point
-- arithmetic, its single-producer single-consumer rings, its sequence lock, its decoders of exchange
-- messages, and the threads of its timer and its feeds.
--
-- The decoders (crates/polymarket, crates/binance) turn messages into events (crates/events), with the
-- instruments of the registry (crates/registry). Market data arrives as events through rings (crates/queue) at the market state
-- engine (crates/market-state), which keeps one order book per instrument and publishes the top of
-- the book when a best price changes. Strategies (crates/strategy) track their orders and positions
-- on fixed-point prices (crates/fixed) and integer ticks and lots (crates/types).
--
-- Prelude       shared names, tests, lists over native numbers, integers and the i64 of Rust
-- Types         crates/types: ticks, lots, ids, sides, queue errors
-- Fixed         crates/fixed: fixed_i64.rs, arithmetic.rs and the integer products of mul_div.rs. A
--               value is its raw integer. Fixed/Wide is the rest of mul_div.rs, Fixed/Convert is
--               convert.rs with the powers of crates/platform/src/numerics.rs, Fixed/Parse is
--               parse.rs, and Fixed/Display is fmt.rs
-- Instrument    crates/types/src/instrument.rs: tick and lot sizes and the conversions with them
-- Events        crates/events: header, flags, payloads, event body and its kind. Events/Event is the
--               constructors of event.rs
-- Queue         crates/queue/src/engine.rs, with the index strategies and the counters of
--               crates/core/src/lib.rs. Queue/Ring/Steps is the step relation of the two threads.
--               Queue/CopyRing is crates/queue/src/copy_ring: engine.rs and raw/mod.rs
-- Seqlock       crates/seqlock/src/raw/seqlock.rs: the steps of a writer and of a reader, on a value
--               that is copied word by word
-- Registry      crates/registry: lib.rs is Registry, the other files are Registry/Types; a HashMap
--               is a list of entries (Registry/Dict), and a String is its bytes
-- Strategy      crates/strategy: order_tracker.rs, position.rs, exposure.rs, and queue.rs, which is
--               QueueEstimator with the operations of f64 and of libm as the parameter F64
-- MarketState   crates/market-state: book/mod.rs is the record OrderBook and its laws,
--               book/array_book.rs is ArrayBook, which fills the laws, state.rs is State, and
--               engine.rs is Engine, over any book
-- Decoder       what the two decoders share. Decoder/Polymarket and Decoder/Peek are
--               crates/polymarket/src/market/decoder.rs, with schema.rs as Polymarket/Schema, and
--               Decoder/Binance is crates/binance/src/decoder.rs and schema.rs. The JSON parsers, and for
--               peek_type the test of UTF-8, are parameters
-- Transport     crates/transport. Transport/Timer is timer.rs, and Transport/Feed is feed.rs
-- Pipeline      what becomes of the events of the Polymarket decoder in the engine
-- Platform      Platform/Limbs is crates/platform/src/intrinsics: addcarry_subborrow.rs and
--               extended_prec.rs, with the width of a limb as a parameter
--
-- A function of the source is the function of the same name here; `&mut self` is a state that is
-- passed and returned. Plain i64 operators wrap, as in a release build; a panic is `none`. The const
-- parameters (levels of a book, decimals) are parameters, with a bound where the source needs one:
-- an index of a book is a u16, so a book has at most 2^16 levels. All loops are structural on a list
-- or on a bound that the source has; only the decimal digits of the printer take fuel, 39 rounds,
-- which is enough since a u128 is below 10^39. The threads of a ring interleave at each
-- access of shared memory; the atomics are sequentially consistent, which the acquire and release
-- pairs on the two indices give. The steps of the sequence lock are sequentially consistent too, one
-- word of the value is copied in a step, and fewer than 2^63 stores overlap one load. In a decoder an
-- early return of 0 is a rejected attempt, which leaves the decoder and the output buffer. The loops
-- of the timer and of a feed run over the list of the rounds that they meet.
--
-- Not modelled: the imbalance of a book (book_imbalance, a quotient of f64 values), the other
-- thread during an operation of the copy ring, the jitter of a feed's backoff, the signed
-- wide product, the bitwise constant-time routines and the SIMD copies of crates/platform, and all I/O.
pub mod Prelude
pub mod Types
pub mod Fixed
pub mod Instrument
pub mod Events
pub mod Queue
pub mod Seqlock
pub mod Registry
pub mod Strategy
pub mod MarketState
pub mod Decoder
pub mod Transport
pub mod Pipeline
pub mod Platform
