-- ===== src/Logger.antt =====
-- utils/Logger.h, Logger.cpp, LoggerStream.h and LoggerStream.cpp: a line of the log, written into an
-- array of 512 bytes. The text of a second, which `gmtime_r` and `snprintf` make, is an argument, and
-- so are the clock and the number of the thread.
pub mod Lines
use live_broadcast_server.Common.{
  ℕ, ◌+◌, ◌-◌, ◌/◌, ◌%◌, ◌<◌, ap, Bool, true, false, not, ◌&&◌, Option, none, some, List, [], ◌∷◌,
  ◌++◌, leb, ◌==◌, if◌then◌else◌, length, replicate,
}
use live_broadcast_server.Text.{c_string}
use live_broadcast_server.Text.Decimal.{to_string, digit}

abbrev pub default_logger_buffer_size : ℕ
default_logger_buffer_size = 512

-- The first `length_` bytes of the array.
pub record LoggerBuffer : Type 0 where
  pub contents : List ℕ

abbrev pub new_buffer : LoggerBuffer
new_buffer = record { contents = [] }

-- `Append` tests nothing: `none` is a write past the array.
pub append : List ℕ → LoggerBuffer → Option LoggerBuffer
append xs b =
    if leb (length b.contents + length xs) default_logger_buffer_size
    then some (record { contents = b.contents ++ xs })
    else none

-- What `operator<<` is given: an `int` has a sign and a size.
pub data Item : Type 0 where
  string c_text view : List ℕ → Item
  char size uint32 : ℕ → Item
  int : Bool → ℕ → Item

-- The text that is appended.
abbrev pub int_text : Bool → ℕ → List ℕ
int_text true n = b'-' ∷ to_string n
int_text false n = to_string n

unfoldable pub item_text : Item → List ℕ
item_text (string xs) = xs
item_text (c_text xs) = c_string xs
item_text (view xs) = xs
item_text (char c) = c ∷ []
item_text (size n) = to_string n
item_text (uint32 n) = to_string n
item_text (int negative n) = int_text negative n

-- `operator<<(const std::string&)`, which the numbers call too.
pub put_string : List ℕ → LoggerBuffer → Option LoggerBuffer
unfolding append
put_string [] b = some b
put_string (x ∷ xs) b = append (x ∷ xs) b

pub put : Item → LoggerBuffer → Option LoggerBuffer
unfolding put_string append
put (string xs) b = put_string xs b
put (c_text xs) b = append (c_string xs) b
put (view xs) b = append xs b
put (char c) b = append (c ∷ []) b
put (size n) b = put_string (to_string n) b
put (uint32 n) b = put_string (to_string n) b
put (int negative n) b = put_string (int_text negative n) b

put_then : (LoggerBuffer → Option LoggerBuffer) → Option LoggerBuffer → Option LoggerBuffer
put_then f none = none
put_then f (some b) = f b

pub put_all : List Item → LoggerBuffer → Option LoggerBuffer
unfolding put put_then
put_all [] b = some b
put_all (i ∷ is) b = put_then (put_all is) (put i b)

pub data LogLevel : Type 0 where
  level_debug level_info level_warn level_error level_fatal : LogLevel

abbrev pub rank : LogLevel → ℕ
rank level_debug = 0
rank level_info = 1
rank level_warn = 2
rank level_error = 3
rank level_fatal = 4

abbrev pub level_text : LogLevel → List ℕ
level_text level_debug = b'D' ∷ b'E' ∷ b'B' ∷ b'U' ∷ b'G' ∷ 32 ∷ []
level_text level_info = b'I' ∷ b'N' ∷ b'F' ∷ b'O' ∷ 32 ∷ 32 ∷ []
level_text level_warn = b'W' ∷ b'A' ∷ b'R' ∷ b'N' ∷ 32 ∷ 32 ∷ []
level_text level_error = b'E' ∷ b'R' ∷ b'R' ∷ b'O' ∷ b'R' ∷ 32 ∷ []
level_text level_fatal = b'F' ∷ b'A' ∷ b'T' ∷ b'A' ∷ b'L' ∷ 32 ∷ []

-- The variables of a thread: the second of the last line, and its text in front of `time_str`.
pub record TimeCache : Type 0 where
  pub last_second : ℕ
  pub time_str : List ℕ

abbrev pub new_cache : TimeCache
new_cache = record { last_second = 0; time_str = replicate 17 0 }

-- `%06d`
abbrev pub six_digits : ℕ → List ℕ
six_digits n =
    digit (n / 100000 % 10)
    ∷ digit (n / 10000 % 10)
    ∷ digit (n / 1000 % 10)
    ∷ digit (n / 100 % 10)
    ∷ digit (n / 10 % 10)
    ∷ digit (n % 10)
    ∷ []

abbrev pub us_per_second : ℕ
us_per_second = 1000000

-- `FormatTime`: what goes to the stream, and the variables. `calendar` is the text of a second.
unfoldable pub format_time : (ℕ → List ℕ) → ℕ → TimeCache → List ℕ × TimeCache
format_time calendar us_since_epoch c =
    let second = us_since_epoch / us_per_second in
    let us = us_since_epoch % us_per_second in
    let d : TimeCache =
      (if second == c.last_second
        then c
        else record { last_second = second; time_str = calendar second }) in
    (d.time_str ++ (b'.' ∷ (six_digits us ++ (32 ∷ []))), d)

-- A statement in the log.
pub record Statement : Type 0 where
  pub level : LogLevel
  pub file_name : List ℕ
  pub line : ℕ
  pub tid : ℕ
  pub time : ℕ
  pub items : List Item

-- All that the constructor, the statement and the destructor give the stream.
abbrev pub items_of : List ℕ → Statement → List Item
items_of stamp s =
    view stamp
    ∷ int false s.tid
    ∷ char 32
    ∷ view (level_text s.level)
    ∷ (s.items
        ++ (c_text (32 ∷ b'-' ∷ 32 ∷ [])
            ∷ c_text s.file_name
            ∷ char b':'
            ∷ int false s.line
            ∷ char 10
            ∷ []))

-- What comes of a statement: the output, the variables of the thread, and whether the program ends.
pub record Logged : Type 0 where
  pub output : Option (List ℕ)
  pub cache : TimeCache
  pub aborts : Bool

abbrev pub contents_of : Option LoggerBuffer → Option (List ℕ)
contents_of none = none
contents_of (some b) = some b.contents

abbrev pub is_fatal : LogLevel → Bool
is_fatal level_fatal = true
is_fatal _ = false

unfoldable pub log : (ℕ → List ℕ) → Statement → TimeCache → Logged
unfolding format_time put_all
log calendar s c =
    let t = format_time calendar s.time c in
    record {
      output = contents_of (put_all (items_of t.0 s) new_buffer);
      cache = t.1;
      aborts = is_fatal s.level;
    }

-- The macros: the statement is run from its level on.
unfoldable pub log_from : (ℕ → List ℕ) → LogLevel → Statement → TimeCache → Logged
unfolding log
log_from calendar level s c =
    if leb (rank level) (rank s.level)
    then log calendar s c
    else record { output = some []; cache = c; aborts = false }

abbrev pub is_some : Option (List ℕ) → Bool
is_some none = false
is_some (some xs) = true

-- Behind a fatal statement the program has ended, and behind a write past the array nothing is known.
abbrev pub goes_on : Logged → Bool
goes_on r = not r.aborts && is_some r.output

-- The statements of a thread, and the output of each.
pub log_all : (ℕ → List ℕ) → LogLevel → List Statement → TimeCache → List (Option (List ℕ))
unfolding log_from
log_all calendar level [] c = []
log_all calendar level (s ∷ ss) c =
    let r = log_from calendar level s c in
    let rest = log_all calendar level ss r.cache in r.output ∷ (if goes_on r then rest else [])
