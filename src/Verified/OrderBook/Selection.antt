-- ===== src/Verified/OrderBook/Selection.antt =====
-- The order book of a quote (src/dex/verified/pools/secondary/secondaryPool.ts).
use verified_paraswap.Prelude.{
  Bool, false, ◌≡◌, inl, inr, Option, none, some, List, [], ◌∷◌, All, Bool-cases,
}
use verified_paraswap.Prelude.Int.{pos, ◌==ℤ◌}
use verified_paraswap.Prelude.Result.{Yields, Yields-bind, Yields-then}
use verified_paraswap.Prelude.Text.{Text}
use verified_paraswap.Verified.Types.{OrdersState, SecondaryTradeState, PoolPairData}
use verified_paraswap.Verified.Parse.{defined}
use verified_paraswap.Verified.Prices.{SwapSide}
use verified_paraswap.Verified.OrderBook.{
  Numbers, same_text, foreign_orders, insert_order, sort_orders, seen, first_of_reference, priced,
  offering, matched_trade, to_big_int, settle_trade, settle_trades, open_orders, older, worse,
  open_book, order_book,
}

-- What holds of every order survives the selections and the sorts.
module _ (P : OrdersState → Type 0) where
  pub All-insert_order :
      (after : OrdersState → OrdersState → Bool) (o : OrdersState) (os : List OrdersState)
      → P o
      → All P os
      → All P (insert_order after o os)
  unfolding insert_order
  All-insert_order after o [] p a = (p, tt)
  All-insert_order after o (q ∷ os) p a = elim (Bool-cases (after o q)) [
    | inl late ↦ rw late (a.0, All-insert_order after o os p a.1)
    | inr early ↦ rw early (p, a)
  ]

  All-sort_orders :
      (after : OrdersState → OrdersState → Bool) (os : List OrdersState)
      → All P os
      → All P (sort_orders after os)
  unfolding sort_orders
  All-sort_orders after [] a = tt
  All-sort_orders after (o ∷ os) a =
      All-insert_order after o (sort_orders after os) a.0 (All-sort_orders after os a.1)

  All-first_of_reference :
      (acc os : List OrdersState) → All P os → All P (first_of_reference acc os)
  unfolding first_of_reference
  All-first_of_reference acc [] a = tt
  All-first_of_reference acc (o ∷ os) a = elim (Bool-cases (seen o.order_reference acc)) [
    | inl old ↦ rw old (All-first_of_reference acc os a.1)
    | inr new ↦ rw new (a.0, All-first_of_reference (o ∷ acc) os a.1)
  ]

  All-priced : (os : List OrdersState) → All P os → All P (priced os)
  unfolding priced
  All-priced [] a = tt
  All-priced (o ∷ os) a = elim (Bool-cases (o.price_offered ==ℤ pos 0)) [
    | inl free ↦ rw free (All-priced os a.1)
    | inr kept ↦ rw kept (a.0, All-priced os a.1)
  ]

  All-offering : (os : List OrdersState) → All P os → All P (offering os)
  unfolding offering
  All-offering [] a = tt
  All-offering (o ∷ os) a = elim (Bool-cases (o.amount_offered ==ℤ pos 0)) [
    | inl free ↦ rw free (All-offering os a.1)
    | inr kept ↦ rw kept (a.0, All-offering os a.1)
  ]

-- An order of somebody else that does not offer the token.
abbrev pub Foreign : Text → Text → OrdersState → Type 0
Foreign token creator o =
    (same_text o.token_in token ≡ false) × (same_text o.creator creator ≡ false)

module _ (token creator : Text) where
  foreign_orders-Foreign :
      (os : List OrdersState)
      → Yields (All (Foreign token creator)) (foreign_orders (some token) creator os)
  unfolding foreign_orders
  foreign_orders-Foreign [] = tt
  foreign_orders-Foreign (o ∷ os) =
      Yields-then _ _ (foreign_orders (some token) creator os) _ (foreign_orders-Foreign os)
        (λ rest a. elim (Bool-cases (same_text o.token_in token)) [
          | inl own ↦ rw own a
          | inr other ↦ rw other (elim (Bool-cases (same_text o.creator creator)) [
            | inl self ↦ rw self a
            | inr foreign ↦ rw foreign ((other, foreign), a)
          ])
        ])

  module _ {F : Type 0} (num : Numbers F) where
    settle_trade-Foreign :
        (security : Option Text) (o : OrdersState) (trade : Option SecondaryTradeState)
        → Foreign token creator o
        → Yields (Foreign token creator) (settle_trade num security o trade)
    unfolding settle_trade
    settle_trade-Foreign security o none f = f
    settle_trade-Foreign security o (some trade) f =
        Yields-bind _ (defined security) _ (λ s _. Yields-bind _ (to_big_int num _) _ (λ left _. f))

    settle_trades-Foreign :
        (security : Option Text) (trades : List SecondaryTradeState) (os : List OrdersState)
        → All (Foreign token creator) os
        → Yields (All (Foreign token creator)) (settle_trades num security trades os)
    unfolding settle_trades
    settle_trades-Foreign security trades [] a = tt
    settle_trades-Foreign security trades (o ∷ os) a =
        Yields-then _ _ (settle_trade num security o (matched_trade o.order_reference trades)) _
          (settle_trade-Foreign security o (matched_trade o.order_reference trades) a.0)
          (λ o' f.
            Yields-then _ _ (settle_trades num security trades os) _
              (settle_trades-Foreign security trades os a.1) (λ rest r. (f, r)))

    open_orders-Foreign :
        (security : Option Text) (trades : List SecondaryTradeState) (os : List OrdersState)
        → All (Foreign token creator) os
        → Yields (All (Foreign token creator)) (open_orders num security trades os)
    unfolding open_orders
    open_orders-Foreign security [] os a = a
    open_orders-Foreign security (trade ∷ trades) os a =
        Yields-then _ _
          (settle_trades num security (trade ∷ trades) (priced (first_of_reference [] os))) _
          (settle_trades-Foreign security (trade ∷ trades) (priced (first_of_reference [] os))
            (All-priced _ (first_of_reference [] os) (All-first_of_reference _ [] os a)))
          (λ settled s. All-offering _ settled s)

    open_book-Foreign :
        (security : Option Text) (d : PoolPairData)
        → Yields (All (Foreign token creator)) (open_book num (some token) security creator d)
    unfolding open_book
    open_book-Foreign security d = Yields-bind _ (defined d.orders) _ (λ orders _.
        Yields-then _ _ (foreign_orders (some token) creator orders) _
          (foreign_orders-Foreign orders)
          (λ foreign f. Yields-bind _ (defined d.secondary_trades) _ (λ trades _.
            open_orders-Foreign security trades (sort_orders (older num) foreign)
              (All-sort_orders _ (older num) foreign f))))

    -- Every order that a quote of the secondary pool runs over, if building the book does not
    -- throw, is of another creator than the caller, and does not have the excluded token as its
    -- token in.
    pub order_book-Foreign :
        (side : SwapSide) (security : Option Text) (d : PoolPairData)
        → Yields (All (Foreign token creator)) (order_book num side (some token) security creator d)
    unfolding order_book
    order_book-Foreign side security d =
        Yields-then _ _ (open_book num (some token) security creator d) _
          (open_book-Foreign security d) (λ book b. All-sort_orders _ (worse num side) book b)
