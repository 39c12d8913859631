-- ===== src/Live/Log.antt =====
-- The log statements of live/ whose text comes from the network or the command line, which the array
-- of utils/LoggerStream may not hold. The clock, the calendar and the thread's variables are arguments.
use live_broadcast_server.Common.{
  ℕ, ◌+◌, ◌≤◌, ◌<◌, ◌≡◌, refl, sym, ap, ◌∙◌, inl, inr, Bool, true, false, List, [], ◌∷◌, ◌++◌,
  append_assoc, arith, ◌==◌, leb, length, length-append, Bool-cases, ◌^◌,
}
use live_broadcast_server.Text.{c_string}
use live_broadcast_server.Text.Decimal.{to_string, length-to_string}
use live_broadcast_server.Logger.{
  Item, item_text, LogLevel, rank, level_text, TimeCache, Statement, items_of, new_buffer,
  contents_of, format_time, log, log_from, is_some, int, char, c_text,
}
use live_broadcast_server.Logger.Lines.{
  if_fits, if_fits_yes, all_text, put_all-if_fits, contents_of-buffer_of,
}

-- What a thread's log has to go on at a statement.
pub record LogContext : Type 0 where
  pub calendar : ℕ → List ℕ
  pub level : LogLevel
  pub cache : TimeCache
  pub tid : ℕ
  pub time : ℕ

-- The contexts of the statements, by their lines in the file.
abbrev pub LogAt : Type 0
LogAt = ℕ → LogContext

-- Whether the program goes on behind a statement: `false` is a write past the array.
unfoldable pub logs : LogAt → LogLevel → List ℕ → ℕ → List Item → Bool
unfolding log_from
logs at level file line items =
    let x = at line in
    is_some
      (log_from x.calendar x.level
        (record {
          level = level;
          file_name = file;
          line = line;
          tid = x.tid;
          time = x.time;
          items = items;
        })
        x.cache).output

-- A stamp has 25 bytes, as FormatTime asserts, and a thread's number is a positive int.
pub record IsLogContext (x : LogContext) : Type 0 where
  pub stamp : length (format_time x.calendar x.time x.cache).0 ≡ 25
  pub tid_lt : x.tid < 2 ^ 31

length-c_string : (xs : List ℕ) → length (c_string xs) ≤ length xs
unfolding c_string
length-c_string [] = omega arith
length-c_string (x ∷ xs) = elim (Bool-cases (x == 0)) [
  | inl y ↦ rw y (omega arith)
  | inr n ↦ rw n (omega (arith, length-c_string xs))
]

all_text-append : (xs ys : List Item) → all_text (xs ++ ys) ≡ all_text xs ++ all_text ys
unfolding all_text
all_text-append [] ys = refl
all_text-append (x ∷ xs) ys =
    ap (λ l. item_text x ++ l) (all_text-append xs ys)
    ∙ sym (append_assoc (item_text x) (all_text xs) (all_text ys))

length-level_text : (l : LogLevel) → length (level_text l) ≡ 6
length-level_text l = ground arith

-- The end of a line.
abbrev tail_items : Statement → List Item
tail_items s =
    c_text (32 ∷ b'-' ∷ 32 ∷ []) ∷ c_text s.file_name ∷ char b':' ∷ int false s.line ∷ char 10 ∷ []

length-tail_items :
    (s : Statement) → s.line < 2 ^ 31 → length (all_text (tail_items s)) ≤ length s.file_name + 15
unfolding all_text item_text c_string
length-tail_items s l = omega (
  arith,
  length-append (c_string s.file_name) (b':' ∷ (to_string s.line ++ (10 ∷ []))),
  length-append (to_string s.line) (10 ∷ []),
  length-c_string s.file_name,
  length-to_string s.line 10 (omega arith) (omega arith) (omega arith),
)

length-items_of :
    (stamp : List ℕ) (s : Statement)
    → length stamp ≡ 25
    → s.tid < 2 ^ 31
    → s.line < 2 ^ 31
    → length (all_text (items_of stamp s)) ≤ length (all_text s.items) + length s.file_name + 57
unfolding all_text item_text
length-items_of stamp s e t l =
    let rest = all_text (s.items ++ tail_items s) in
    omega (
      arith,
      length-append stamp (to_string s.tid ++ (32 ∷ (level_text s.level ++ rest))),
      length-append (to_string s.tid) (32 ∷ (level_text s.level ++ rest)),
      length-append (level_text s.level) rest,
      length-level_text s.level,
      ap length (all_text-append s.items (tail_items s)),
      length-append (all_text s.items) (all_text (tail_items s)),
      length-tail_items s l,
      length-to_string s.tid 10 (omega arith) (omega arith) (omega arith),
    )

log-fits :
    (x : LogContext) (s : Statement)
    → length (format_time x.calendar s.time x.cache).0 ≡ 25
    → s.tid < 2 ^ 31
    → s.line < 2 ^ 31
    → length (all_text s.items) + length s.file_name ≤ 455
    → is_some (log x.calendar s x.cache).output ≡ true
unfolding log
log-fits x s e t l h =
    let items = items_of (format_time x.calendar s.time x.cache).0 s in
    ap (λ o. is_some (contents_of o)) (put_all-if_fits items new_buffer (omega arith))
    ∙ ap is_some (contents_of-buffer_of (if_fits (all_text items)))
    ∙ ap is_some (
        if_fits_yes (all_text items)
          (omega (arith, length-items_of (format_time x.calendar s.time x.cache).0 s e t l)))

-- A statement whose own text and file name have 455 bytes at most does no harm.
pub logs-short :
    (at : LogAt) (level : LogLevel) (file : List ℕ) (line : ℕ) (items : List Item)
    → IsLogContext (at line)
    → line < 2 ^ 31
    → length (all_text items) + length file ≤ 455
    → logs at level file line items ≡ true
unfolding logs log_from
logs-short at level file line items v l h =
    elim (Bool-cases (leb (rank (at line).level) (rank level))) [
      | inl y ↦ rw y (log-fits (at line) _ v.stamp v.tid_lt l h)
      | inr n ↦ rw n refl
    ]
