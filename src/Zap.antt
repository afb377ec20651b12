-- ===== src/Zap.antt =====
-- server/internal/adapters/logger/zap_adapter.go, over what it uses of the package zap.
use agent_events.Prelude.{String, Bool, not, List, map}
use agent_events.Prelude.Int.{ℤ}
use agent_events.Time.{Duration}
use agent_events.Text.{◌^^◌}
use agent_events.Apperr.{Error, wrapped, error_text}
use agent_events.Exec.{Result, ok, err}
use agent_events.Http.ClientIp.{Net}
use agent_events.Config.{Config, is_production}
use agent_events.Port.{
  text, number, number_64, boolean, duration, error, nothing, Field, Level, Logger,
}

-- zap.Field, by the function that makes it
pub data ZapField : Type 0 where
  zap_string : (key value : String) → ZapField
  zap_int zap_int64 : (key : String) → ℤ → ZapField
  zap_bool : (key : String) → Bool → ZapField
  zap_duration : (key : String) → Duration → ZapField
  named_error : (key : String) → Error → ZapField
  zap_any_nil : (key : String) → ZapField

-- `zapField`; the types that no caller logs are left out
unfoldable pub zap_field : Field → ZapField
zap_field f = elim f.value [
  | nothing ↦ zap_any_nil f.key
  | error e ↦ named_error f.key e
  | text s ↦ zap_string f.key s
  | number n ↦ zap_int f.key n
  | number_64 n ↦ zap_int64 f.key n
  | boolean b ↦ zap_bool f.key b
  | duration d ↦ zap_duration f.key d
]

-- `zapFields`
unfoldable pub zap_fields : List Field → List ZapField
unfolding zap_field
zap_fields fields = map zap_field fields

-- zap.Logger, and the functions `ParseLevel` and `Build`, on whether the configuration is that of
-- the development and on its level; `quote` is `%q` of fmt
pub record ZapLibrary (W : Type 0) : Type 0 where
  pub write : Level → String → List ZapField → W → W
  pub parse_level : String → Result ℤ
  pub quote : String → String
  pub build : (development : Bool) → (level : ℤ) → Result (Unit {0})

module _ {W : Type 0} (zap : ZapLibrary W) where
  -- `New`, with the four methods of Adapter
  abbrev pub new_adapter : Logger W
  new_adapter = record { log = λ level msg fields. zap.write level msg (zap_fields fields) }

  abbrev built : Result (Unit {0}) → Result (Logger W)
  built (ok _) = ok new_adapter
  built (err e) = err (wrapped ("build zap logger: " ^^ error_text e) e)

  abbrev with_level : {net : Net} → Config net → Result ℤ → Result (Logger W)
  with_level cfg (ok level) = built (zap.build (not (is_production cfg)) level)
  with_level cfg (err e) =
      err (wrapped ("invalid LOG_LEVEL " ^^ zap.quote cfg.log_level ^^ ": " ^^ error_text e) e)

  -- `NewZapLogger` behind `New`
  unfoldable pub new_zap_logger : {net : Net} → Config net → Result (Logger W)
  unfolding zap_fields error_text
  new_zap_logger cfg = with_level cfg (zap.parse_level cfg.log_level)
