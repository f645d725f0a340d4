-- ===== src/Database/Rows.antt =====
-- The table of src/database.c as the calls of SQLite leave it: a view of a trace that does not look at the
-- program. The columns of a row are those that the text of the prepared INSERT names, in its order, and
-- the n-th one has the text that was bound at n.
use sentry_peer.Base.{
  ℕ, ◌==◌, ◌+◌, String, Bool, true, false, Option, none, List, [], ◌∷◌, if◌then◌else◌,
}
use sentry_peer.World.Calls.{
  Call, sqlite_open, sqlite_exec, sqlite_prepare, sqlite_bind_text, sqlite_step, sqlite_finalize,
  sqlite_close,
}
use Prim.Native.Char.{Char, code}
use Prim.Native.String as Text
use text.Mathlib.Text.{starts_with}

-- A character before the first name of a list.
abbrev put_char : Char → List String → List String
put_char c [] = []
put_char c (name ∷ names) = Text.◌∷◌ c name ∷ names

-- The names between the parentheses, without spaces.
abbrev names : String → List String
names Text.[] = []
names (Text.◌∷◌ c s) =
    if code c == 41
    then Text.[] ∷ []
    else if code c == 44
    then Text.[] ∷ names s
    else if code c == 32
    then names s
    else put_char c (names s)

abbrev pub columns : String → List String
columns Text.[] = []
columns (Text.◌∷◌ c s) = if code c == 40 then names s else columns s

-- The text that is bound at a position of the statement.
abbrev pub bound : ℕ → List Call → Option String
bound n [] = none
bound n (sqlite_bind_text k t ∷ cs) = if k == n then t else bound n cs
bound n (sqlite_prepare _ ∷ cs) = none
bound n (_ ∷ cs) = bound n cs

abbrev pub prepared : List Call → String
prepared [] = ""
prepared (sqlite_prepare sql ∷ cs) = sql
prepared (_ ∷ cs) = prepared cs

abbrev pub Row : Type 0
Row = List (String × Option String)

abbrev pub row_from : ℕ → List String → List Call → Row
row_from n [] cs = []
row_from n (name ∷ rest) cs = (name, bound n cs) ∷ row_from (n + 1) rest cs

-- The rows that were inserted, newest first.
abbrev pub honey : List Call → List Row
honey [] = []
honey (sqlite_step ∷ cs) =
    if starts_with (prepared cs) "INSERT INTO honey "
    then row_from 1 (columns (prepared cs)) cs ∷ honey cs
    else honey cs
honey (_ ∷ cs) = honey cs

-- The statements that were executed at once, newest first.
abbrev pub executed : List Call → List String
executed [] = []
executed (sqlite_exec sql ∷ cs) = sql ∷ executed cs
executed (_ ∷ cs) = executed cs

-- Whether a connection is open, and whether a statement is not finalized.
abbrev pub is_open : List Call → Bool
is_open [] = false
is_open (sqlite_open _ ∷ cs) = true
is_open (sqlite_close ∷ cs) = false
is_open (_ ∷ cs) = is_open cs

abbrev pub is_pending : List Call → Bool
is_pending [] = false
is_pending (sqlite_prepare _ ∷ cs) = true
is_pending (sqlite_finalize ∷ cs) = false
is_pending (_ ∷ cs) = is_pending cs
