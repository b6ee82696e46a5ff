-- ===== src/Backend/Observability.antt =====
-- service_python/observability.py: the level of the log, from LOG_LEVEL. The functions that set up
-- logging and tracing are in Backend/Launch.
pub mod Agreement
use ai_gateway_monitor.Common.{
  ℕ, ◌+◌, ◌-◌, ◌&&◌, Bool, true, false, String, Option, none, some, List, [], ◌∷◌, map, leb, ◌==◌,
  if◌then◌else◌,
}
use ai_gateway_monitor.Go.Text.{codes, same_codes}
use ai_gateway_monitor.Process.{Level, debug, info, warn, error}

-- `str.upper` on a character, up to the choice of capitals beyond ASCII. Two letters beyond ASCII
-- have one in ASCII: U+0131 (I) and U+017F (S). A letter whose capital is a word of several
-- letters, such as U+FB01 (FI), stands for itself: none of the four words contains one of these.
unfoldable pub rune_to_upper : ℕ → ℕ
rune_to_upper c =
    if leb b'a' c && leb c b'z'
    then c - 32
    else if c == 0x131
    then b'I'
    else if c == 0x17F
    then b'S'
    else c

-- `raw.upper() == word`, the look-up of a key of `levels`.
unfoldable pub upper_is : String → String → Bool
unfolding rune_to_upper
upper_is raw word = same_codes (map rune_to_upper (codes raw)) (codes word)

-- `os.getenv("LOG_LEVEL", "INFO")`
abbrev raw_level : Option String → String
raw_level none = "INFO"
raw_level (some raw) = raw

-- `_resolve_log_level`, and whether it warns of the value.
unfoldable pub resolve_log_level : Option String → Level × Bool
resolve_log_level variable =
    let raw = raw_level variable in
    if upper_is raw "DEBUG"
    then (debug, false)
    else if upper_is raw "INFO"
    then (info, false)
    else if upper_is raw "WARNING"
    then (warn, false)
    else if upper_is raw "ERROR"
    then (error, false)
    else (info, true)
