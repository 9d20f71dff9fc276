-- ===== src/Dependencies/Archive/Names.antt =====
-- The tests of a member's name in validate_zip_archive of macloader/dependencies/archive.py. A name
-- is the list of its code points; paths are split the POSIX way.
use libre_core_mac_loader.Prelude.{
  ℕ, Bool, true, false, ◌&&◌, ◌||◌, List, [], ◌∷◌, ◌==◌, nat_eq, list_eq, contains, if◌then◌else◌,
  list_beq, ◌++◌, not,
}
use libre_core_mac_loader.Prelude.Text.{codes}

abbrev pub Name : Type 0
Name = List ℕ

-- The methods of `str` that read the tables of Unicode.
pub record Unicode : Type 0 where
  pub casefold : Name → Name
  pub upper : Name → Name
  pub is_digit : ℕ → Bool

-- `name.replace("\\", "/")`
unfoldable pub normalized : Name → Name
normalized [] = []
normalized (c ∷ name) = (if c == b'\\' then b'/' else c) ∷ normalized name

-- `name.rstrip(chars)` and `name.lstrip(chars)`
unfoldable pub rstrip : List ℕ → Name → Name
unfolding contains
rstrip chars [] = []
rstrip chars (c ∷ name) = elim (rstrip chars name) [
  | [] ↦ if contains chars c then [] else c ∷ []
  | d ∷ rest ↦ c ∷ d ∷ rest
]

unfoldable pub lstrip : List ℕ → Name → Name
unfolding contains
lstrip chars [] = []
lstrip chars (c ∷ name) = if contains chars c then lstrip chars name else c ∷ name

abbrev slash : List ℕ
slash = b'/' ∷ []

-- `not name or name.strip("/") in {"", "."}`
unfoldable pub is_empty_name : Name → Bool
unfolding lstrip rstrip list_beq
is_empty_name name =
    let stripped = rstrip slash (lstrip slash name) in
    name == [] || stripped == [] || stripped == codes "."

-- The key of the collision test.
unfoldable pub folded : Unicode → Name → Name
unfolding rstrip
folded u name = u.casefold (rstrip slash name)

-- `name.startswith("/") or name.startswith("\\") or (len(name) >= 2 and name[1] == ":")`
unfoldable pub is_absolute : Name → Bool
is_absolute [] = false
is_absolute (a ∷ []) = a == b'/' || a == b'\\'
is_absolute (a ∷ b ∷ rest) = a == b'/' || a == b'\\' || b == b':'

-- `name.split("/")`
abbrev pub grow : ℕ → List Name → List Name
grow c [] = (c ∷ []) ∷ []
grow c (part ∷ parts) = (c ∷ part) ∷ parts

unfoldable pub split_slash : Name → List Name
split_slash [] = [] ∷ []
split_slash (c ∷ name) = if c == b'/' then [] ∷ split_slash name else grow c (split_slash name)

-- The components of `Path(name).parts` behind the root: empty ones and "." are dropped.
unfoldable pub real_parts : List Name → List Name
unfolding list_beq
real_parts [] = []
real_parts (part ∷ parts) =
    if part == [] || part == codes "." then real_parts parts else part ∷ real_parts parts

-- The root of a name: a single slash, or two slashes where there are exactly two.
abbrev pub root : Name
root = codes "/"

abbrev pub double_root : Name
double_root = codes "//"

unfoldable pub root_of : Name → List Name
root_of [] = []
root_of (a ∷ []) = if a == b'/' then root ∷ [] else []
root_of (a ∷ b ∷ []) = if a == b'/' then (if b == b'/' then double_root ∷ [] else root ∷ []) else []
root_of (a ∷ b ∷ c ∷ rest) =
    if a == b'/' then (if b == b'/' && not (c == b'/') then double_root ∷ [] else root ∷ []) else []

-- `Path(name).parts`
unfoldable pub parts_of : Name → List Name
unfolding real_parts split_slash root_of
parts_of name = root_of name ++ real_parts (split_slash name)

-- `part.split(".", 1)[0]`
unfoldable pub before_dot : Name → Name
before_dot [] = []
before_dot (c ∷ name) = if c == b'.' then [] else c ∷ before_dot name

-- `part.endswith((".", " "))`
unfoldable pub ends_badly : Name → Bool
ends_badly [] = false
ends_badly (c ∷ []) = c == b'.' || c == b' '
ends_badly (c ∷ d ∷ rest) = ends_badly (d ∷ rest)

abbrev all_digits : Unicode → Name → Bool
all_digits u [] = true
all_digits u (c ∷ rest) = u.is_digit c && all_digits u rest

-- `basename.startswith(("COM", "LPT")) and basename[3:].isdigit()`
unfoldable pub is_port : Unicode → Name → Bool
unfolding list_beq
is_port u (a ∷ b ∷ c ∷ d ∷ rest) =
    (a ∷ b ∷ c ∷ [] == codes "COM" || a ∷ b ∷ c ∷ [] == codes "LPT") && all_digits u (d ∷ rest)
is_port u _ = false

abbrev devices : List Name
devices =
    codes "CON"
    ∷ codes "PRN"
    ∷ codes "AUX"
    ∷ codes "NUL"
    ∷ codes "CONIN$"
    ∷ codes "CONOUT$"
    ∷ codes "CLOCK$"
    ∷ []

-- Whether Windows gives a component a meaning of its own.
unfoldable pub is_windows_part : Unicode → Name → Bool
unfolding rstrip before_dot ends_badly is_port contains list_beq
is_windows_part u part =
    let basename = u.upper (rstrip (b' ' ∷ b'.' ∷ []) (before_dot part)) in
    ends_badly part || contains part b':' || contains devices basename || is_port u basename

unfoldable pub has_windows_part : Unicode → List Name → Bool
has_windows_part u [] = false
has_windows_part u (part ∷ parts) = is_windows_part u part || has_windows_part u parts

abbrev pub dotdot : Name
dotdot = codes ".."
