-- ===== src/Usage.antt =====
-- infrastructure/postgres/community.py: reserve_usage, which admits a use against the limits of a
-- day. Times are microseconds since the epoch in UTC. A request key is the list of the numbers
-- that its text joins.
pub mod Bounds
use ai_rpg.Prelude.{
  ℕ, Error, ◌*◌, ◌-◌, ◌%◌, String, Bool, true, false, ◌&&◌, ◌||◌, not, Option, none, some, List, [],
  ◌∷◌, Result, ok, checks, ◌>>◌, or_raise, value_error, story_error, lookup, ref_eq, list_eq, id_eq,
  option_eq, leb, ◌==◌, length, keep, any, is_some, if◌then◌else◌, ◌>>=◌,
}
use ai_rpg.Text.{codes}
use ai_rpg.Text.Regex.{strip}
use ai_rpg.Domain.Results.{Uuid}

-- The limits of config.py that admission reads.
pub record Settings : Type 0 where
  pub daily_turn_limit : ℕ
  pub daily_story_limit : ℕ
  pub daily_story_validation_limit : ℕ
  pub daily_authoring_job_limit : ℕ
  pub daily_game_llm_limit : ℕ
  pub daily_authoring_llm_limit : ℕ
  pub daily_global_llm_limit : ℕ
  pub concurrent_turn_limit : ℕ

unfoldable pub usage_limits : Settings → List (String × ℕ)
usage_limits settings =
    ("turn", settings.daily_turn_limit)
    ∷ ("story_create", settings.daily_story_limit)
    ∷ ("story_validation", settings.daily_story_validation_limit)
    ∷ ("authoring_job", settings.daily_authoring_job_limit)
    ∷ ("llm_game", settings.daily_game_llm_limit)
    ∷ ("llm_authoring", settings.daily_authoring_llm_limit)
    ∷ []

pub record UsageReservationModel : Type 0 where
  pub principal_id : Uuid
  pub purpose : String
  pub request_key : List ℕ
  pub created_at : ℕ

-- A turn, with the lifecycle of the story that its campaign plays, where it plays one.
pub record UsageTurn : Type 0 where
  pub created_by : Uuid
  pub resolution_status : String
  pub narration_status : String
  pub story_lifecycle : Option String

pub record UsageTables : Type 0 where
  pub reservations : List UsageReservationModel
  pub usage_paused : Bool
  pub turns : List UsageTurn

-- Midnight before a time.
abbrev pub day_of : ℕ → ℕ
day_of now = now - now % (86400 * 1000000)

unfoldable pub same_reservation : Uuid → String → List ℕ → UsageReservationModel → Bool
same_reservation principal_id purpose request_key r =
    r.principal_id == principal_id && r.purpose == purpose && r.request_key == request_key

unfoldable pub is_counted : Uuid → String → ℕ → UsageReservationModel → Bool
is_counted principal_id purpose day r =
    r.principal_id == principal_id && r.purpose == purpose && leb day r.created_at

unfoldable pub is_llm_use : ℕ → UsageReservationModel → Bool
is_llm_use day r = (r.purpose == "llm_game" || r.purpose == "llm_authoring") && leb day r.created_at

unfoldable pub is_active_turn : Uuid → UsageTurn → Bool
is_active_turn principal_id t =
    t.created_by == principal_id
    && not (t.story_lifecycle == some "blocked")
    && (t.resolution_status == "pending"
        || t.resolution_status == "resolving"
        || t.narration_status == "pending"
        || t.narration_status == "generating")

abbrev pub usage_count : Uuid → String → ℕ → List UsageReservationModel → ℕ
usage_count principal_id purpose day reservations =
    length (keep (is_counted principal_id purpose day) reservations)

abbrev pub llm_count : ℕ → List UsageReservationModel → ℕ
llm_count day reservations = length (keep (is_llm_use day) reservations)

abbrev pub starts_with : String → String → Bool
starts_with prefix s = is_some (strip (codes prefix) (codes s))

-- What stands against a use, in the order in which it is asked.
abbrev pub refusals : Settings → Uuid → String → ℕ → ℕ → UsageTables → List (Bool × Error)
refusals settings principal_id purpose limit day tables =
    (tables.usage_paused, story_error "usage_paused" 503)
    ∷ (
      leb limit (usage_count principal_id purpose day tables.reservations),
      story_error "usage_limit_exceeded" 429,
    )
    ∷ (
      starts_with "llm_" purpose
          && leb settings.daily_global_llm_limit (llm_count day tables.reservations),
      story_error "usage_limit_exceeded" 429,
    )
    ∷ (
      purpose == "turn"
          && leb settings.concurrent_turn_limit
              (length (keep (is_active_turn principal_id) tables.turns)),
      story_error "concurrent_usage_limit" 429,
    )
    ∷ []

abbrev pub with_use : UsageReservationModel → UsageTables → UsageTables
with_use r tables = record tables { reservations = r ∷ tables.reservations }

-- A retry with the same key is free.
unfoldable pub reserve_usage :
    Settings → Uuid → String → List ℕ → ℕ → UsageTables → Result UsageTables
reserve_usage settings principal_id purpose request_key now tables =
    or_raise (lookup purpose (usage_limits settings)) (value_error "Unknown usage purpose")
    >>= λ limit.
        let reserved = do
          checks (refusals settings principal_id purpose limit (day_of now) tables)
          ok (
              with_use
                (record {
                  principal_id = principal_id;
                  purpose = purpose;
                  request_key = request_key;
                  created_at = now;
                })
                tables)
        in if any (same_reservation principal_id purpose request_key) tables.reservations
          then ok tables
          else reserved
