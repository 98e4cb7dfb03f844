-- ===== src/Jobs/Calendar.antt =====
-- The windows of internal/jobs/scheduler/scheduler.go: a text for each stretch of time in which a cron
-- job may run once.
use Prim.Native.String.{◌++◌ as append}
use arcana_cloud_go.Base.{
  ℕ, ◌*◌, ◌/◌, ◌%◌, String, none, some, List, [], ◌∷◌, get_elem?, str_eq, if◌then◌else◌,
}

-- A time of UTC, as package time gives its fields.
pub record Calendar : Type 0 where
  pub year : ℕ
  pub month : ℕ
  pub day_of_month : ℕ
  pub hour : ℕ
  pub minute : ℕ
  pub iso_year : ℕ
  pub iso_week : ℕ

abbrev digits : List String
digits = "0" ∷ "1" ∷ "2" ∷ "3" ∷ "4" ∷ "5" ∷ "6" ∷ "7" ∷ "8" ∷ "9" ∷ []

abbrev digit : ℕ → String
digit n = elim (get_elem? digits n) [ none ↦ "" | some d ↦ d ]

-- %02d of a number below 100, and the four digits of a year from 1000 to 9999.
abbrev pub two : ℕ → String
two n = append (digit (n / 10)) (digit (n % 10))

abbrev pub four : ℕ → String
four n = append (two (n / 100)) (two (n % 100))

abbrev pub to_month : Calendar → String
to_month t = append (four t.year) (append "-" (two t.month))

abbrev pub to_day : Calendar → String
to_day t = append (to_month t) (append "-" (two t.day_of_month))

abbrev pub to_hour : Calendar → String
to_hour t = append (to_day t) (append "T" (two t.hour))

abbrev pub to_minute : Calendar → ℕ → String
to_minute t m = append (to_hour t) (append ":" (two m))

unfoldable pub get_execution_window : Calendar → String → String
get_execution_window t schedule =
    if str_eq schedule "* * * * *"
    then to_minute t t.minute
    else if str_eq schedule "*/5 * * * *"
    then to_minute t (t.minute / 5 * 5)
    else if str_eq schedule "0 * * * *"
    then to_hour t
    else if str_eq schedule "0 0 * * *"
    then to_day t
    else if str_eq schedule "0 0 * * 1"
    then append (four t.iso_year) (append "-W" (two t.iso_week))
    else if str_eq schedule "0 0 1 * *"
    then to_month t
    else to_minute t t.minute
