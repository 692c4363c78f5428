-- ===== src/Lib.antt =====
-- Models of the parts of the library that keep a pool's state and price a swap, with the theorems that
-- make them correct.
--
-- A dex adapter follows its pools with an event subscriber: an object with the state at a block, a
-- short history of earlier states, and a flag that the chain may have been reorganised. The block
-- manager feeds it logs, rolls it back, and restarts it; prices are computed from the state that it
-- keeps. The Verified dex is such an adapter: its event pool plays the vault's events on the balances
-- of its pools, its primary issue pools quote sales and purchases in fixed-point arithmetic, and its
-- secondary issue pools match them against a book of orders. The Uniswap V3 adapter follows a pool of
-- concentrated liquidity: its events move the price, the ticks and their bitmap, and a quote runs the
-- contract's swap, a step for each tick that it crosses, over the part of the bitmap that is held.
--
--   Prelude        shared names: tests on numbers, lists, `bigint` as signed integers without bound
--                  (Int), shifts, remainders, asIntN and asUintN (Words), exceptions as results
--                  (Result), strings and objects (Text)
--   Subscriber     src/stateful-event-subscriber.ts: History (the object `stateHistory` and the loops
--                  over its keys), Object (the object, setState, _setState, restart, rollback,
--                  invalidate, getState), Updates (processBlockLogs, update, initialize and their
--                  callbacks); the proofs are in Order, Pruning, Invariant, Reorg, Rollback, Window,
--                  Replay, Fuel and Reach
--   FixedMath      src/dex/verified/pools/generalPoolMath.ts
--   Verified       src/dex/verified: Types (types.ts), Primary and Parse (pools/primary/primaryPool.ts),
--                  Prices and EventPool (verified-pool.ts, and isSupportedPool of utils.ts),
--                  OrderBook and Secondary (pools/secondary/secondaryPool.ts), OnChain
--                  (getOnChainCalls, decodeOnChainCalls, getOnChainState, generateState), Paths
--                  (the main tokens and the paths of utils.ts)
--   Composed       src/composed-event-subscriber.ts
--   Scheduling     src/lib: Tasks (task-scheduler.ts), Promises (promise-scheduler.ts), LogMessages
--                  (log-messages-suppressor.ts)
--   ConstantProduct  src/dex/uniswap-v2/uniswap-v2-constant-product-pool.ts
--   TransferFee    src/lib/token-transfer-fee.ts
--   UniswapV3      src/dex/uniswap-v3: Types (types.ts, constants.ts), then contract-math: Bits
--                  (BitMath.ts), TickBitmap (TickBitMap.ts), FullMath (FullMath.ts, UnsafeMath.ts,
--                  LiquidityMath.ts), SqrtPrice (SqrtPriceMath.ts), SwapStep (SwapMath.ts), TickMath,
--                  Oracle, Ticks (Tick.ts, utils.ts), and of uniswap-v3-math.ts: Positions
--                  (_updatePosition, _modifyPosition), Crossing and Cycles (_priceComputationCycles),
--                  Quote (queryOutputs), SwapEvents (swapFromEvent); Pool (uniswap-v3-pool.ts); the
--                  modules Thrown say what a handler that throws has changed of the pool
--   Tests          runs on small inputs, and the theorems applied to them
--
-- An exception is a result of the model's own, and a method that waits returns how far the object had
-- come. What lies outside is a parameter: a subclass's `processLog` and `generateState`, the decoder of
-- logs and of the answers of the chain, what the cache and the block manager return, floating-point
-- numbers. Calls that leave the subscriber are listed in its field `effects`. The methods that wait are
-- also read as sequences of uninterrupted steps, between which the steps of other calls may fall
-- (Subscriber.Reach).
--
-- The outer loop of `update` runs on fuel: the number of logs, of which each round takes at least one.
-- The rounds of a Uniswap V3 quote have a fuel of 129, one more than the limit on ticks lets happen.
-- The oracle's binary search takes its fuel, of which one more than the cardinality is enough; the replay
-- of a Uniswap V3 swap event takes its fuel too, since the code does not bound its rounds.
-- The other loops recur on the list that they run over. Nothing else is bounded: `bigint` has no limit,
-- block numbers are natural numbers, and the lowest block that is kept, which may be negative, is
-- compared by adding the window on the other side.
--
-- Not modelled: logging, network access and the encoding of contract calls. Hexadecimal addresses are
-- compared by `toLowerCase` on the Latin letters. Of Uniswap V3, the functions of contract-math that
-- nothing calls, the adapter's choice of pools and its cache.

pub mod Prelude
pub mod FixedMath
pub mod Verified
pub mod Subscriber
pub mod ConstantProduct
pub mod TransferFee
pub mod UniswapV3
pub mod Composed
pub mod Scheduling
pub mod Tests
