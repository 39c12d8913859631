-- ===== src/Logger/Lines.antt =====
-- utils/Logger.cpp and LoggerStream.cpp against a log without variables and without an array.
use live_broadcast_server.Common.{
  ℕ, ◌/◌, ◌%◌, ◌≤◌, ◌<◌, ◌≡◌, refl, sym, ap, ap₂, ◌∙◌, inl, inr, Bool, not, ◌&&◌, false, Option,
  none, some, List, [], ◌∷◌, ◌++◌, append-nil, append_assoc, arith, leb, ◌==◌, if◌then◌else◌,
  le→leb, ==_iff, Bool-cases, length, length-append,
}
use native.Mathlib.Decide.{dec_le}
use live_broadcast_server.Text.{c_string}
use live_broadcast_server.Text.Decimal.{to_string}
use live_broadcast_server.Logger.{
  default_logger_buffer_size, LoggerBuffer, new_buffer, append, Item, string, c_text, view, char,
  size, uint32, int, int_text, item_text, put_string, put, put_then, put_all, LogLevel, rank,
  TimeCache, new_cache, six_digits, us_per_second, format_time, Statement, items_of, contents_of,
  log, log_from, log_all, is_fatal, is_some,
}

-- The text, if the array holds it.
abbrev pub if_fits : List ℕ → Option (List ℕ)
if_fits xs = if leb (length xs) default_logger_buffer_size then some xs else none

unfoldable pub all_text : List Item → List ℕ
unfolding item_text
all_text [] = []
all_text (i ∷ is) = item_text i ++ all_text is

abbrev buffer_of : Option (List ℕ) → Option LoggerBuffer
buffer_of none = none
buffer_of (some xs) = some (record { contents = xs })

append-if_fits :
    (xs : List ℕ) (b : LoggerBuffer) → append xs b ≡ buffer_of (if_fits (b.contents ++ xs))
unfolding append
append-if_fits xs b = ground (arith, length-append b.contents xs)

pub if_fits_yes : (xs : List ℕ) → length xs ≤ default_logger_buffer_size → if_fits xs ≡ some xs
if_fits_yes xs h = rw (le→leb (length xs) 512 h) refl

if_fits_no : (xs : List ℕ) → default_logger_buffer_size < length xs → if_fits xs ≡ none
if_fits_no xs h = ground arith

put_string-if_fits :
    (xs : List ℕ) (b : LoggerBuffer)
    → length b.contents ≤ default_logger_buffer_size
    → put_string xs b ≡ buffer_of (if_fits (b.contents ++ xs))
unfolding put_string
put_string-if_fits [] b h = sym (
    ap (λ l. buffer_of (if_fits l)) (append-nil b.contents)
    ∙ ap buffer_of (if_fits_yes b.contents h))
put_string-if_fits (x ∷ xs) b h = append-if_fits (x ∷ xs) b

put-if_fits :
    (i : Item) (b : LoggerBuffer)
    → length b.contents ≤ default_logger_buffer_size
    → put i b ≡ buffer_of (if_fits (b.contents ++ item_text i))
unfolding put item_text
put-if_fits (string xs) b h = put_string-if_fits xs b h
put-if_fits (c_text xs) b h = append-if_fits (c_string xs) b
put-if_fits (view xs) b h = append-if_fits xs b
put-if_fits (char c) b h = append-if_fits (c ∷ []) b
put-if_fits (size n) b h = put_string-if_fits (to_string n) b h
put-if_fits (uint32 n) b h = put_string-if_fits (to_string n) b h
put-if_fits (int negative n) b h = put_string-if_fits (int_text negative n) b h

pub put_all-if_fits :
    (is : List Item) (b : LoggerBuffer)
    → length b.contents ≤ default_logger_buffer_size
    → put_all is b ≡ buffer_of (if_fits (b.contents ++ all_text is))
unfolding put_all all_text put_then
put_all-if_fits [] b h = sym (
    ap (λ l. buffer_of (if_fits l)) (append-nil b.contents)
    ∙ ap buffer_of (if_fits_yes b.contents h))
put_all-if_fits (i ∷ is) b h =
    let front = b.contents ++ item_text i in
    let whole = append_assoc b.contents (item_text i) (all_text is) in
    ap (put_then (put_all is)) (put-if_fits i b h)
    ∙ elim (dec_le (length front) default_logger_buffer_size) [
      | yes f ↦
          ap (λ o. put_then (put_all is) (buffer_of o)) (if_fits_yes front f)
          ∙ put_all-if_fits is (record { contents = front }) f
          ∙ ap (λ l. buffer_of (if_fits l)) whole
      | no n ↦
          ap (λ o. put_then (put_all is) (buffer_of o)) (if_fits_no front (omega arith))
          ∙ sym (
              ap buffer_of (
                if_fits_no (b.contents ++ (item_text i ++ all_text is)) (
                  let e = length-append front (all_text is) in
                  let w = ap length whole in omega (arith, e, w))))
    ]

pub contents_of-buffer_of : (o : Option (List ℕ)) → contents_of (buffer_of o) ≡ o
contents_of-buffer_of none = refl
contents_of-buffer_of (some xs) = refl

-- The stamp of a time, from the calendar.
abbrev pub stamp_of : (ℕ → List ℕ) → ℕ → List ℕ
stamp_of calendar time =
    calendar (time / us_per_second) ++ (b'.' ∷ (six_digits (time % us_per_second) ++ (32 ∷ [])))

-- The line of a statement, where its level is logged.
pub line_of : (ℕ → List ℕ) → LogLevel → Statement → List ℕ
unfolding all_text
line_of calendar level s =
    if leb (rank level) (rank s.level) then all_text (items_of (stamp_of calendar s.time) s) else []

-- The variables hold the text of their second.
IsFresh : (ℕ → List ℕ) → TimeCache → Type 0
IsFresh calendar c = 0 < c.last_second → c.time_str ≡ calendar c.last_second

format_time-stamp :
    (calendar : ℕ → List ℕ) (time : ℕ) (c : TimeCache)
    → us_per_second ≤ time
    → IsFresh calendar c
    → ((format_time calendar time c).0 ≡ stamp_of calendar time)
      × IsFresh calendar (format_time calendar time c).1
unfolding format_time IsFresh
format_time-stamp calendar time c h f = elim (Bool-cases (time / us_per_second == c.last_second)) [
  | inl y ↦
      let same = (==_iff (time / us_per_second) c.last_second).0 y in
      rw y (
        ap (λ l. l ++ (b'.' ∷ (six_digits (time % us_per_second) ++ (32 ∷ []))))
            (f (omega arith) ∙ ap calendar (sym same)),
        f,
      )
  | inr n ↦ rw n (refl, λ p. refl)
]

log-output :
    (calendar : ℕ → List ℕ) (s : Statement) (c : TimeCache)
    → us_per_second ≤ s.time
    → IsFresh calendar c
    → ((log calendar s c).output ≡ if_fits (all_text (items_of (stamp_of calendar s.time) s)))
      × IsFresh calendar (log calendar s c).cache
unfolding log
log-output calendar s c h f =
    let t = format_time-stamp calendar s.time c h f in
    (
      ap contents_of (
            put_all-if_fits (items_of (format_time calendar s.time c).0 s) new_buffer (omega arith))
          ∙ contents_of-buffer_of
              (if_fits (all_text (items_of (format_time calendar s.time c).0 s)))
          ∙ ap (λ stamp. if_fits (all_text (items_of stamp s))) t.0,
      t.1,
    )

log_from-output :
    (calendar : ℕ → List ℕ) (level : LogLevel) (s : Statement) (c : TimeCache)
    → us_per_second ≤ s.time
    → IsFresh calendar c
    → ((log_from calendar level s c).output ≡ if_fits (line_of calendar level s))
      × IsFresh calendar (log_from calendar level s c).cache
unfolding log_from line_of
log_from-output calendar level s c h f = elim (Bool-cases (leb (rank level) (rank s.level))) [
  | inl y ↦ rw y (log-output calendar s c h f)
  | inr n ↦ rw n (refl, f)
]

-- No statement in the first second of 1970.
pub data AllLate : List Statement → Type 0 where
  no_statements : AllLate []
  late :
      {s : Statement} {ss : List Statement} → us_per_second ≤ s.time → AllLate ss → AllLate (s ∷ ss)

-- Whether more is logged behind a statement: it is not fatal, and its line is not too long.
abbrev pub is_followed : (ℕ → List ℕ) → LogLevel → Statement → Bool
is_followed calendar level s =
    not (is_fatal s.level) && is_some (if_fits (line_of calendar level s))

-- The log without variables and without an array.
unfoldable pub lines : (ℕ → List ℕ) → LogLevel → List Statement → List (Option (List ℕ))
lines calendar level [] = []
lines calendar level (s ∷ ss) =
    let rest = lines calendar level ss in
    if_fits (line_of calendar level s) ∷ (if is_followed calendar level s then rest else [])

-- A fatal statement is logged at every level.
fatal-logged : (level s : LogLevel) → leb (rank level) (rank s) ≡ false → is_fatal s ≡ false
fatal-logged level s e = ground arith

log_from-aborts :
    (calendar : ℕ → List ℕ) (level : LogLevel) (s : Statement) (c : TimeCache)
    → (log_from calendar level s c).aborts ≡ is_fatal s.level
unfolding log_from log
log_from-aborts calendar level s c = elim (Bool-cases (leb (rank level) (rank s.level))) [
  | inl y ↦ rw y refl
  | inr n ↦ rw n (sym (fatal-logged level s.level n))
]

log_all-if_fits :
    (calendar : ℕ → List ℕ) (level : LogLevel) (ss : List Statement) (c : TimeCache)
    → AllLate ss
    → IsFresh calendar c
    → log_all calendar level ss c ≡ lines calendar level ss
unfolding log_all lines
log_all-if_fits calendar level [] c l f = refl
log_all-if_fits calendar level (s ∷ ss) c (late h l) f =
    let r = log_from-output calendar level s c h f in
    let q = log_from calendar level s c in
    ap₂ (λ o os. o ∷ os) r.0
      (ap₂ (λ a o. if not a && is_some o then log_all calendar level ss q.cache else [])
          (log_from-aborts calendar level s c) r.0
        ∙ ap (λ rest. if is_followed calendar level s then rest else [])
            (log_all-if_fits calendar level ss q.cache l r.1))

new_cache-IsFresh : (calendar : ℕ → List ℕ) → IsFresh calendar new_cache
unfolding IsFresh
new_cache-IsFresh calendar h = absurd (omega arith)

-- A thread's log, with its variables that keep the text of the last second and its array of 512
-- bytes, is the log without them: each statement of the level or above puts out its whole line if
-- the line has at most 512 bytes, and otherwise writes past the array, up to the first that does so
-- or is fatal. No statement is from the first second of 1970.
pub log_all-lines :
    (calendar : ℕ → List ℕ) (level : LogLevel) (ss : List Statement)
    → AllLate ss
    → log_all calendar level ss new_cache ≡ lines calendar level ss
log_all-lines calendar level ss l =
    log_all-if_fits calendar level ss new_cache l (new_cache-IsFresh calendar)
