-- ===== src/Downsampler.antt =====
-- Downsampling: service/history/downsampler.py, with execute_downsampling and end_session of
-- service/history/store.py. `Z` is the time zone of the process and `A` the averages, `sum(l) /
-- len(l)`, which Python takes on floats. Instants are microseconds from a midnight, so a number of
-- seconds that divides the day cuts them into the buckets of the code.
pub mod Pass
pub mod Keeps
pub mod Plans
pub mod Frame
use igrill_remote_server.Prelude.{
  ℕ, ◌+◌, ◌-◌, ◌*◌, ◌/◌, ◌%◌, ℤ, String, Bool, true, false, not, ◌&&◌, ◌||◌, Option, none, some,
  List, [], ◌∷◌, ◌++◌, str_eq, text_ltb, ltb, ◌==◌, eq_ℤ, ltb_ℤ, if◌then◌else◌, any_where,
  update_where,
}
use igrill_remote_server.Action.{Result, ok, err, ◌then_try◌, value_error, type_error}
use igrill_remote_server.Clock.{Datetime, aware, naive, Iso}
use igrill_remote_server.Store.{ProbeReading}

pub record TimeZone : Type 0 where
  pub local : ℕ → ℕ
  pub isoformat_naive : ℕ → String

pub record Averages (T : Type 0) : Type 0 where
  pub mean : List T → T
  pub rounded_mean : List ℕ → ℕ

-- `dt.timestamp()` reads a naive datetime in the zone of the process.
unfoldable pub timestamp : TimeZone → Datetime → ℕ
timestamp Z (aware t) = t
timestamp Z (naive t) = Z.local t

-- Half a timedelta, rounded to the even microsecond.
unfoldable pub half : ℕ → ℕ
half n = if n % 4 == 3 then n / 2 + 1 else n / 2

-- `lo + (hi - lo) / 2` over the least and the greatest datetime.
unfoldable pub middle : ℕ → ℕ → List ℕ → ℕ
middle lo hi [] = lo + half (hi - lo)
middle lo hi (x ∷ xs) = middle (if ltb x lo then x else lo) (if ltb hi x then x else hi) xs

-- The instants of datetimes that can be compared: aware ones, or naive ones.
unfoldable pub all_aware : List Datetime → Option (List ℕ)
all_aware [] = some []
all_aware (aware t ∷ ts) = elim (all_aware ts) [ none ↦ none | some l ↦ some (t ∷ l) ]
all_aware (naive t ∷ ts) = none

unfoldable pub all_naive : List Datetime → Option (List ℕ)
all_naive [] = some []
all_naive (naive t ∷ ts) = elim (all_naive ts) [ none ↦ none | some l ↦ some (t ∷ l) ]
all_naive (aware t ∷ ts) = none

-- `mid_ts.isoformat()`
unfoldable pub mid_ts_iso : Iso → TimeZone → List Datetime → Result String
mid_ts_iso I Z [] = err value_error
mid_ts_iso I Z (aware t ∷ ts) = elim (all_aware ts) [
  | none ↦ err type_error
  | some l ↦ ok (I.isoformat (middle t t l))
]
mid_ts_iso I Z (naive t ∷ ts) = elim (all_naive ts) [
  | none ↦ err type_error
  | some l ↦ ok (Z.isoformat_naive (middle t t l))
]

-- The members that are not None.
unfoldable pub given_values {ℓ} : {A : Type ℓ} → List (Option A) → List A
given_values [] = []
given_values (none ∷ l) = given_values l
given_values (some a ∷ l) = a ∷ given_values l

-- `f(l) if l else None`
abbrev pub unless_empty {ℓ κ} : {A : Type ℓ} {B : Type κ} → (List A → B) → List A → Option B
unless_empty f [] = none
unless_empty f (a ∷ l) = some (f (a ∷ l))

unfoldable pub least : ℕ → List ℕ → ℕ
least n [] = n
least n (x ∷ xs) = least (if ltb x n then x else n) xs

abbrev pub is_in : List ℕ → ℕ → Bool
is_in l n = any_where (λ m. m == n) l

module _ {T : Type 0} where
  abbrev pub row_before : ProbeReading T → ProbeReading T → Bool
  row_before r x =
      text_ltb r.address x.address
      || str_eq r.address x.address
        && (ltb_ℤ r.probe_index x.probe_index
            || eq_ℤ r.probe_index x.probe_index && text_ltb r.recorded_at x.recorded_at)

  -- WHERE session_id = ? AND recorded_at < ? [AND recorded_at >= ?]
  unfoldable pub in_window : String → String → Option String → ProbeReading T → Bool
  in_window sid older_than newer_than r =
      str_eq r.session_id sid
      && text_ltb r.recorded_at older_than
      && elim newer_than [ none ↦ true | some newer ↦ not (text_ltb r.recorded_at newer) ]

-- An entry of `buckets`: the rows of one probe in one stretch of time.
pub record Bucket (T : Type 0) : Type 0 where
  pub address : String
  pub probe_index : ℤ
  pub bucket_key : ℕ
  pub readings : List (ProbeReading T)

-- An entry of `bucket_seqs`; the numbers are only tested for being among them.
pub record Collapsed : Type 0 where
  pub session_id : String
  pub address : String
  pub min_seq : ℕ
  pub seqs : List ℕ

abbrev pub same_collapsed : String → String → ℕ → Collapsed → Bool
same_collapsed sid addr min_seq c =
    str_eq c.session_id sid && str_eq c.address addr && c.min_seq == min_seq

unfoldable pub note_seqs : String → String → ℕ → List ℕ → List Collapsed → List Collapsed
note_seqs sid addr min_seq seqs l =
    if any_where (same_collapsed sid addr min_seq) l
    then update_where (same_collapsed sid addr min_seq) (λ c. record c { seqs = c.seqs ++ seqs }) l
    else l ++ record { session_id = sid; address = addr; min_seq = min_seq; seqs = seqs } ∷ []

module _ {T : Type 0} where
  abbrev pub same_bucket : ℕ → ProbeReading T → Bucket T → Bool
  same_bucket key r b =
      str_eq b.address r.address && eq_ℤ b.probe_index r.probe_index && b.bucket_key == key

  unfoldable pub put_bucket : ℕ → ProbeReading T → List (Bucket T) → List (Bucket T)
  put_bucket key r l =
      if any_where (same_bucket key r) l
      then update_where (same_bucket key r) (λ b. record b { readings = b.readings ++ r ∷ [] }) l
      else l
        ++ record {
          address = r.address;
          probe_index = r.probe_index;
          bucket_key = key;
          readings = r ∷ [];
        }
          ∷ []

  -- The loop that fills `buckets`.
  unfoldable pub group_rows :
      Iso → TimeZone → ℕ → List (ProbeReading T) → List (Bucket T) → Result (List (Bucket T))
  group_rows I Z bucket_seconds [] l = ok l
  group_rows I Z bucket_seconds (r ∷ rs) l = elim (I.fromisoformat r.recorded_at) [
    | none ↦ err value_error
    | some dt ↦
        group_rows I Z bucket_seconds rs
          (put_bucket (timestamp Z dt / (bucket_seconds * 1000000)) r l)
  ]

  unfoldable pub parse_all : Iso → List (ProbeReading T) → Result (List Datetime)
  parse_all I [] = ok []
  parse_all I (r ∷ rs) = elim (I.fromisoformat r.recorded_at) [
    | none ↦ err value_error
    | some dt ↦ parse_all I rs then_try λ l. ok (dt ∷ l)
  ]
