-- ===== src/MacDatabase/Handles/Balance.antt =====
-- mac_database.cpp: the ledger of SQLite after a call of open, prepare, finalize or close.
use ip_server.Base.{ℕ_discrete, true, ℕ, ◌+◌, ◌≤◌, ◌≡◌, refl, some, ◌==◌, arith, ==_iff, suc}
use ip_server.Store.Counted.{
  one_if, count, take_one, one_if_self, one_if_le, one_if_apart, take_one_lem,
}
use ip_server.MacDatabase.Handles.{Ledger, finalize, close_connection, open_connection, prepare}

-- Each connection is open as often as it is owned, once at most, with one statement.
pub record IsBalanced (f : ℕ → ℕ) (w : Ledger) : Type 0 where
  pub connected : (c : ℕ) → count c w.connections ≡ f c
  pub prepared : (c : ℕ) → count c w.statements ≡ f c
  pub once : (c : ℕ) → f c ≤ 1
  pub fresh : (c : ℕ) → w.next ≤ c → f c ≡ 0

-- A statement and its connection are released in this order.
pub release_lem :
    (f : ℕ → ℕ) (c : ℕ) (w : Ledger)
    → IsBalanced (λ d. f d + one_if (d == c)) w
    → (t u : Ledger) × (finalize (some c) w ≡ some t)
      × (close_connection (some c) t ≡ some u)
      × IsBalanced f u
unfolding finalize close_connection
release_lem f c w b =
    let one = one_if_self c in
    let (ss, e, k) = take_one_lem c w.statements (omega (arith, b.prepared c, one)) in
    let (cs, e', k') = take_one_lem c w.connections (omega (arith, b.connected c, one)) in
    let idle : (count c ss == 0) ≡ true =
      (==_iff (count c ss) 0).1 (omega (arith, k c, one, b.once c, b.prepared c)) in
    (
      record w { statements = ss },
      record w { statements = ss; connections = cs },
      rw e refl,
      rw e' (rw idle refl),
      record {
        connected = λ d. omega (arith, k' d, b.connected d);
        prepared = λ d. omega (arith, k d, b.prepared d);
        once = λ d. omega (arith, b.once d);
        fresh = λ d h. omega (arith, b.fresh d h);
      },
    )

pub open_lem :
    (f : ℕ → ℕ) (w : Ledger)
    → IsBalanced f w
    → IsBalanced (λ d. f d + one_if (d == w.next)) (prepare w.next (open_connection w))
unfolding prepare open_connection count
open_lem f w b = record {
  connected = λ d. omega (arith, b.connected d);
  prepared = λ d. omega (arith, b.prepared d);
  once = λ d. elim (ℕ_discrete d w.next) [
    | yes q ↦ omega (arith, q, b.fresh d (omega (arith, q)), one_if_le d w.next)
    | no n ↦ omega (arith, one_if_apart d w.next n, b.once d)
  ];
  fresh = λ d h.
      omega (arith, b.fresh d (omega (arith, h)), one_if_apart d w.next (λ q. omega (arith, h, q)));
}

-- A connection that was just opened, without a statement, is closed again.
pub abandon_lem :
    (f : ℕ → ℕ) (w : Ledger)
    → IsBalanced f w
    → (t : Ledger) × (close_connection (some w.next) (open_connection w) ≡ some t) × IsBalanced f t
unfolding close_connection open_connection take_one
abandon_lem f w b =
    let idle : (count w.next w.statements == 0) ≡ true =
      (==_iff (count w.next w.statements) 0).1
        (omega (arith, b.prepared w.next, b.fresh w.next (omega arith))) in
    (
      record w { next = suc w.next },
      rw ((==_iff w.next w.next).1 refl) (rw idle refl),
      record {
        connected = b.connected;
        prepared = b.prepared;
        once = b.once;
        fresh = λ d h. b.fresh d (omega (arith, h));
      },
    )
