-- ===== src/GeeOrm/Log.antt =====
-- geeorm/log/log.go: where the two loggers write.
use days_project.Common.{ℕ, ◌≡◌, refl, ltb, if◌then◌else◌}

-- `os.Stdout` and `ioutil.Discard`
pub data Output : Type 0 where
  stdout discard : Output

-- `errorLog` and `infoLog`
pub record Loggers : Type 0 where
  pub error_log : Output
  pub info_log : Output

abbrev pub info_level : ℕ
info_level = 0

abbrev pub error_level : ℕ
error_level = 1

abbrev pub disabled : ℕ
disabled = 2

-- The loop of `SetLevel` over `loggers`
unfoldable pub reset : Loggers → Loggers
reset l = record l { error_log = stdout; info_log = stdout }

-- `SetLevel`, at a level that is not negative
unfoldable pub set_level : ℕ → Loggers → Loggers
unfolding reset
set_level level l =
    let l' = reset l in
    let errors = if ltb error_level level then discard else l'.error_log in
    record l' {
      error_log = errors;
      info_log = if ltb info_level level then discard else l'.info_log;
    }

-- A later level takes the place of an earlier one, a more verbose one too.
pub set_level-set_level :
    (later earlier : ℕ) (l : Loggers) → set_level later (set_level earlier l) ≡ set_level later l
unfolding set_level reset
set_level-set_level later earlier l = refl
