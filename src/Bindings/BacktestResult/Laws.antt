-- ===== src/Bindings/BacktestResult/Laws.antt =====
-- backtester-py/src/lib.rs: the columns of a result are the fields of its rows.
use Prim.Native.String.{String}
use crypto_rs_backtester.Prelude.{
  ℕ, ◌≡◌, refl, ap, Option, none, some, List, [], ◌∷◌, ◌++◌, map, length, arith, replicate,
}
use mathlib.Core.List.{append_assoc, append-nil}
use crypto_rs_backtester.Prelude.Int.{ℤ}
use crypto_rs_backtester.Collections.Map.{Map, get}
use crypto_rs_backtester.Types.{as_i8}
use crypto_rs_backtester.Stats.{Floats, TradeFill}
use crypto_rs_backtester.Bindings.{string_eq}
use crypto_rs_backtester.Bindings.BacktestResult.{
  BacktestResult, Item, Builders, no_builders, append_trades, trades, trades_df,
  trade_fill_to_pydict, append_points, equity_curve_df, nat_item, int, bool,
}

module _ {F : Floats} where
  -- A column as the entries of its rows; a key without a column is in no row.
  abbrev pub entries : ℕ → Option (List (Item F)) → List (Option (Item F))
  entries n none = replicate n none
  entries n (some column) = map some column

  -- The builders that start empty.
  abbrev built : List TradeFill → Builders F
  built ts = record {
    ts = map (λ t. int t.ts_exchange) ts;
    symbol = map (λ t. nat_item t.symbol_id) ts;
    order = map (λ t. nat_item t.order_id) ts;
    side = map (λ t. int (as_i8 t.side)) ts;
    price = map (λ t. int t.price) ts;
    qty = map (λ t. int t.qty) ts;
    fee = map (λ t. int t.fee) ts;
    is_taker = map (λ t. bool t.is_taker) ts;
  }

  abbrev joined : Builders F → Builders F → Builders F
  joined a b = record {
    ts = a.ts ++ b.ts;
    symbol = a.symbol ++ b.symbol;
    order = a.order ++ b.order;
    side = a.side ++ b.side;
    price = a.price ++ b.price;
    qty = a.qty ++ b.qty;
    fee = a.fee ++ b.fee;
    is_taker = a.is_taker ++ b.is_taker;
  }

  append_trades-built :
      (ts : List TradeFill) (b : Builders F) → append_trades ts b ≡ joined b (built ts)
  unfolding append_trades
  append_trades-built [] b = simp append-nil refl
  append_trades-built (t ∷ ts) b = simp (append_trades-built ts, append_assoc) refl

  append_points-built :
      (ps : List (ℤ × ℤ)) (b : List (Item F) × List (Item F))
      → append_points ps b ≡ (b.0 ++ map (λ p. int p.0) ps, b.1 ++ map (λ p. int p.1) ps)
  unfolding append_points
  append_points-built [] b = simp append-nil refl
  append_points-built (p ∷ ps) b = simp (append_points-built ps, append_assoc) refl

  columns_of : List TradeFill → Map String (List (Item F))
  columns_of ts =
      let b = built ts in
      ("ts_exchange", b.ts)
      ∷ ("symbol_id", b.symbol)
      ∷ ("order_id", b.order)
      ∷ ("side", b.side)
      ∷ ("price", b.price)
      ∷ ("qty", b.qty)
      ∷ ("fee", b.fee)
      ∷ ("is_taker", b.is_taker)
      ∷ []

  rows-columns_of :
      (key : String) (ts : List TradeFill)
      → map (get key) (map trade_fill_to_pydict ts) ≡ entries (length ts) (get key (columns_of ts))
  unfolding columns_of trade_fill_to_pydict get
  rows-columns_of key [] = ground arith
  rows-columns_of key (t ∷ ts) = ground (arith, rows-columns_of key ts)

  -- `trades_df` and `trades` hold the same data: under every key the entries of its column are those of
  -- the rows in their order, a key without a column is in no row, and `_len` is the number of rows; and
  -- the columns of `equity_curve_df` are the two halves of the curve's points.
  pub trades_df-trades :
      (key : String) (r : BacktestResult F)
      → (map (get key) (trades r) ≡ entries (trades_df r).size (get key (trades_df r).columns))
        × (get "equity" (equity_curve_df r).columns ≡ some (map (λ p. int p.1) r.equity_curve))
        × (get "ts_exchange" (equity_curve_df r).columns ≡ some (map (λ p. int p.0) r.equity_curve))
  unfolding trades trades_df equity_curve_df columns_of get
  trades_df-trades key r =
      let points = append_points-built r.equity_curve ([], []) in
      (
        rw (append_trades-built r.trades no_builders) (rows-columns_of key r.trades),
        ap (λ b. some b.1) points,
        ap (λ b. some b.0) points,
      )
