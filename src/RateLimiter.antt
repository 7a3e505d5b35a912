-- ===== src/RateLimiter.antt =====
-- src/rate_limiter.h and src/rate_limiter.cpp: requests per client in a sliding window, with a
-- bounded number of client records in least-recently-used order.
-- A call takes the readings of the steady clock that it makes, in ticks; `is_allowed` makes two,
-- its own and that of `cleanup_old_timestamps`. The mutex is held over each public call, so
-- calls are sequential. `none` is undefined behaviour: a dangling iterator, or `back()` of an
-- empty list. Log lines are left out.
pub mod Invariant
pub mod Window
pub mod Admission
pub mod Decision
pub mod Tracking
pub mod History
pub mod Remaining
pub mod Cleanup
pub mod Sweep
pub mod Mixed
use ip_server.Base.{
  ℕ, suc, ◌-◌, Bool, true, false, List, [], ◌∷◌, ◌++◌, Option, none, some, length, ltb, leb,
  if◌then◌else◌, ◌>>=◌,
}
use ip_server.Base.Int.{ℤ, pos, leb_ℤ, ◌-ℤ◌, max_ℤ, to_int, to_size}
use ip_server.Base.Text.{Str, Str-discrete}
use ip_server.Store.Dict.{find, erase, assign, emplace}
use ip_server.Store.NodeList.{
  NodeList, empty_list, push_front, splice_front, erase_node, back, pop_back,
}

pub record IpRecord : Type 0 where
  pub timestamps : List ℕ
  pub lru_it : ℕ

pub record RateLimiter : Type 0 where
  pub max_requests : ℤ
  pub window : ℕ
  pub max_ip_records : ℕ
  pub ip_records : List (Str × IpRecord)
  pub lru_list : NodeList Str

-- The constructor.
unfoldable pub init : ℤ → ℕ → ℕ → RateLimiter
init max_requests window max_ip_records = record {
  max_requests = max_requests;
  window = window;
  max_ip_records = max_ip_records;
  ip_records = [];
  lru_list = empty_list;
}

-- The loop of `cleanup_old_timestamps`: entries leave at the front while they are older than the
-- window. A reading earlier than the entry gives a negative age in the source and 0 here; neither
-- exceeds the window.
unfoldable pub pop_old : ℕ → ℕ → List ℕ → List ℕ
pop_old window now [] = []
pop_old window now (t ∷ ts) = if ltb window (now - t) then pop_old window now ts else t ∷ ts

unfoldable pub cleanup_old_timestamps : ℕ → ℕ → IpRecord → IpRecord
cleanup_old_timestamps window now r = record r { timestamps = pop_old window now r.timestamps }

unfoldable pub evict_lru : RateLimiter → Option RateLimiter
evict_lru s = elim s.lru_list.nodes [
  | [] ↦ some s
  | _ ∷ _ ↦ do
    lru_ip ← back s.lru_list
    rest ← pop_back s.lru_list
    some (record s { ip_records = erase Str-discrete lru_ip s.ip_records; lru_list = rest })
]

-- The end of the first branch of `is_allowed`: a record for a client that has none.
unfoldable pub add_record : Str → ℕ → RateLimiter → RateLimiter
add_record ip now s = record s {
  ip_records =
      emplace Str-discrete ip (record { timestamps = now ∷ []; lru_it = s.lru_list.next })
        s.ip_records;
  lru_list = push_front ip s.lru_list;
}

-- The first branch of `is_allowed`.
unfoldable pub admit_new : Str → ℕ → RateLimiter → Option RateLimiter
admit_new ip now s = do
  room ← if leb s.max_ip_records (length s.ip_records) then evict_lru s else some s
  some (add_record ip now room)

-- The rest of `is_allowed`, at a client's record.
unfoldable pub admit_known : Str → ℕ → ℕ → IpRecord → RateLimiter → Option (RateLimiter × Bool)
admit_known ip now later r s = do
  order ← splice_front r.lru_it s.lru_list
  let clean = cleanup_old_timestamps s.window later r
  let put = λ (x : IpRecord). record s {
    ip_records = assign Str-discrete ip x s.ip_records;
    lru_list = order;
  }
  if ltb (length clean.timestamps) (to_size s.max_requests)
      then some (put (record clean { timestamps = clean.timestamps ++ now ∷ [] }), true)
      else some (put clean, false)

unfoldable pub is_allowed : Str → ℕ → ℕ → RateLimiter → Option (RateLimiter × Bool)
is_allowed ip now later s =
    if leb_ℤ s.max_requests (pos 0)
    then some (s, false)
    else elim (find Str-discrete ip s.ip_records) [
      | none ↦ do s' ← admit_new ip now s; some (s', true)
      | some r ↦ admit_known ip now later r s
    ]

unfoldable pub get_remaining : Str → ℕ → RateLimiter → RateLimiter × ℤ
get_remaining ip now s = elim (find Str-discrete ip s.ip_records) [
  | none ↦ (s, s.max_requests)
  | some r ↦
      let clean = cleanup_old_timestamps s.window now r in
      (
        record s { ip_records = assign Str-discrete ip clean s.ip_records },
        max_ℤ (pos 0) (s.max_requests -ℤ to_int (length clean.timestamps)),
      )
]

-- The first loop of `cleanup`; `clock i` is the reading made for the i-th record.
unfoldable pub clean_all : ℕ → (ℕ → ℕ) → ℕ → List (Str × IpRecord) → List (Str × IpRecord)
clean_all window clock i [] = []
clean_all window clock i ((ip, r) ∷ m) =
    (ip, cleanup_old_timestamps window (clock i) r) ∷ clean_all window clock (suc i) m

-- `timestamps_.empty()`.
unfoldable pub is_idle : IpRecord → Bool
is_idle r = elim r.timestamps [ [] ↦ true | _ ∷ _ ↦ false ]

-- The second loop of `cleanup`: what is left of the map, and the list without the nodes of the
-- records that went. The iterator of the loop stands behind `done`.
unfoldable pub remove_idle :
    List (Str × IpRecord) → NodeList Str → Option (List (Str × IpRecord) × NodeList Str)
remove_idle [] l = some ([], l)
remove_idle ((ip, r) ∷ m) l =
    let keep = (do (m', l') ← remove_idle m l; some ((ip, r) ∷ m', l')) in
    let drop = (do l' ← erase_node r.lru_it l; remove_idle m l') in if is_idle r then drop else keep

unfoldable pub cleanup : (ℕ → ℕ) → RateLimiter → Option RateLimiter
cleanup clock s = do
  (m, l) ← remove_idle (clean_all s.window clock 0 s.ip_records) s.lru_list
  some (record s { ip_records = m; lru_list = l })
