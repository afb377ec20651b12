-- ===== src/Tests/Fixtures.antt =====
-- A small server: an engine for which every text but the empty one is a UUID, two users and an
-- event of the first.
use agent_events.Prelude.{
  ◌-◌, ◌%◌, ◌≡◌, refl, String, true, Option, none, some, [], ◌∷◌, arith, map, ◌==◌, if◌then◌else◌,
  inl, inr, Bool-cases,
}
use agent_events.Prelude.Int.{pos, negsuc}
use agent_events.Time.{Time, hour}
use agent_events.Memory.{Limits, Range}
use agent_events.Domain.{Event}
use agent_events.Postgres.Schema.{Db, Engine, EventRow, Timestamptz, UserRow, empty_db}
use agent_events.World.{World}
use agent_events.Usecase.{Actor}

abbrev pub some_text : String → Option String
some_text s = if s == "" then none else some s

pub some_text-canonical : (s u : String) → some_text s ≡ some u → some_text u ≡ some u
some_text-canonical s u h = elim (Bool-cases (s == "")) [
  | inl empty ↦ cc (rw empty at h)
  | inr given ↦ let e : some s ≡ some u = rw given at h in ground (arith, given, e)
]

abbrev pub down_to_micros : Time → Time
down_to_micros (pos n) = pos (n - n % 1000)
down_to_micros (negsuc n) = negsuc n

pub down_to_micros_idem : (t : Time) → down_to_micros (down_to_micros t) ≡ down_to_micros t
down_to_micros_idem (pos n) = ground arith
down_to_micros_idem (negsuc n) = refl

abbrev pub engine : Engine
engine = record {
  uuid = some_text;
  uuid_canonical = some_text-canonical;
  micros = down_to_micros;
  micros_micros = down_to_micros_idem;
}

-- a time in 2026, in nanoseconds
abbrev pub noon : Time
noon = pos 63_900_000_000_000_000_000

abbrev pub at_noon : Timestamptz
at_noon = record { time = noon; valid = true }

abbrev pub user_row : String → UserRow
user_row id = record {
  id = id;
  provider = "google";
  subject = id;
  email = "";
  created_at = at_noon;
}

abbrev event_row : EventRow
event_row = record {
  id = "e1";
  user_id = "ann";
  name = "launch";
  description = "";
  created_at = at_noon;
  updated_at = at_noon;
}

abbrev pub launch : Event
launch = record {
  id = "e1";
  user_id = "ann";
  name = "launch";
  description = "";
  created_at = noon;
  updated_at = noon;
}

abbrev pub db : Db
db = record empty_db { users = user_row "ann" ∷ user_row "bob" ∷ []; events = event_row ∷ [] }

abbrev keys : Range
keys = map (λ entry. entry.0)

abbrev pub world : World
world = record {
  db = db;
  faults = λ n. none;
  counts = [];
  ranges = λ n. keys;
  clock = λ n. noon;
  uuids = λ n. "e2";
  random = λ n. some (1 ∷ 2 ∷ 3 ∷ []);
  journal = [];
}

abbrev pub limits : Limits
limits =
    ("event.create", record { max = pos 2; window = hour })
    ∷ ("auth.exchange", record { max = pos 1; window = hour })
    ∷ []

abbrev pub ann : Actor
ann = record { user_id = "ann"; agent_id = "a1" }

abbrev pub bob : Actor
bob = record { user_id = "bob"; agent_id = "b1" }
