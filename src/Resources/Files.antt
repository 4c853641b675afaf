-- ===== src/Resources/Files.antt =====
-- The readers of tools/pod_resources.py: cgroup files, /proc/meminfo and the walk to the mount root.
use runpod_sageattention.Base.{
  ℕ, ◌+◌, ◌*◌, ◌^◌, ◌≡◌, refl, String, str_eq, Bool, true, false, ◌&&◌, ◌||◌, Option, none, some,
  List, [], ◌∷◌, leb, ltb, ◌==◌, map, if◌then◌else◌,
}
use runpod_sageattention.Base.Int.{ℤ, pos, negsuc}
use runpod_sageattention.Base.Text.{Codes, codes, eq_codes, strip, words, lower_code, int10, extend}

-- A path by its components, the innermost first: `path.parent` is the tail.
abbrev pub FilePath : Type 0
FilePath = List String

-- What `path.read_text(encoding="ascii")` returns; `none` where it raises.
abbrev pub Files : Type 0
Files = FilePath → Option String

abbrev pub eq_path : FilePath → FilePath → Bool
eq_path [] [] = true
eq_path (a ∷ p) (b ∷ q) = str_eq a b && eq_path p q
eq_path _ _ = false

-- `current.relative_to(root)` does not raise
unfoldable pub is_below : FilePath → FilePath → Bool
is_below root [] = eq_path [] root
is_below root (a ∷ p) = eq_path (a ∷ p) root || is_below root p

-- the directory and its ancestors up to the mount root
unfoldable pub up_to : FilePath → FilePath → List FilePath
up_to root [] = [] ∷ []
up_to root (a ∷ p) =
    let rest = up_to root p in if eq_path (a ∷ p) root then (a ∷ p) ∷ [] else (a ∷ p) ∷ rest

-- `_walk_ancestors`
unfoldable pub walk_ancestors : FilePath → FilePath → List FilePath
unfolding is_below up_to
walk_ancestors current root = if is_below root current then up_to root current else current ∷ []

abbrev as_codes : Option String → Option Codes
as_codes none = none
as_codes (some s) = some (codes s)

abbrev to_int : Option Codes → Option ℤ
unfolding int10
to_int none = none
to_int (some s) = int10 s

-- `_read_integer`
unfoldable pub read_integer : Files → FilePath → Option ℤ
unfolding to_int
read_integer files path = to_int (as_codes (files path))

abbrev pub unlimited_threshold : ℕ
unlimited_threshold = 2 ^ 60

abbrev below_threshold : Option ℤ → Option ℕ
below_threshold none = none
below_threshold (some (negsuc n)) = none
below_threshold (some (pos n)) = if ltb n unlimited_threshold then some n else none

-- the text of a limit file, stripped and in lower case
unfoldable pub limit_value : Codes → Option ℕ
unfolding int10
limit_value s =
    if eq_codes s [] || (eq_codes s (codes "max") || eq_codes s (codes "-1"))
    then none
    else below_threshold (int10 s)

abbrev limit_of : Option String → Option ℕ
unfolding limit_value strip lower_code
limit_of none = none
limit_of (some s) = limit_value (map lower_code (strip (codes s)))

-- `_read_limit`
unfoldable pub read_limit : Files → FilePath → Option ℕ
unfolding limit_of
read_limit files path = limit_of (files path)

-- the characters at which `str.splitlines` breaks
unfoldable pub is_line_break : ℕ → Bool
is_line_break c =
    (leb 10 c && leb c 13)
    || ((leb 28 c && leb c 30) || ((c == 133) || ((c == 8232) || (c == 8233))))

-- `text.splitlines()`, with an empty line between a carriage return and its line feed
unfoldable pub split_lines : Codes → List Codes
unfolding is_line_break
split_lines [] = [] ∷ []
split_lines (c ∷ s) =
    let rest = split_lines s in if is_line_break c then [] ∷ rest else extend c rest

-- A dict with the last write in front.
abbrev pub Stats : Type 0
Stats = List (Codes × ℤ)

-- `stats.get(key)`
unfoldable pub stat : Codes → Stats → Option ℤ
stat k [] = none
stat k ((j, v) ∷ d) = if eq_codes j k then some v else stat k d

abbrev store : Codes → Option ℤ → Stats → Stats
store k none d = d
store k (some v) d = (k, v) ∷ d

abbrev key_value : List Codes → Stats → Stats
unfolding int10
key_value (k ∷ v ∷ fields) d = store k (int10 v) d
key_value _ d = d

unfoldable pub key_values : List Codes → Stats → Stats
unfolding key_value words
key_values [] d = d
key_values (line ∷ lines) d = key_values lines (key_value (words line) d)

abbrev stats_of : Option String → Stats
unfolding key_values split_lines
stats_of none = []
stats_of (some s) = key_values (split_lines (codes s)) []

-- `_parse_key_values`
unfoldable pub parse_key_values : Files → FilePath → Stats
unfolding stats_of
parse_key_values files path = stats_of (files path)

abbrev cons_key : ℕ → Option (Codes × Codes) → Option (Codes × Codes)
cons_key c none = none
cons_key c (some (k, raw)) = some (c ∷ k, raw)

-- `line.split(sep, 1)` where the line has the separator
unfoldable pub split_first : ℕ → Codes → Option (Codes × Codes)
split_first sep [] = none
split_first sep (c ∷ s) =
    let rest = cons_key c (split_first sep s) in if c == sep then some ([], s) else rest

abbrev kilobytes : ℤ → ℤ
kilobytes (pos n) = pos (n * 1024)
kilobytes (negsuc n) = negsuc (n * 1024 + 1023)

abbrev scaled : List Codes → Option ℤ → Option ℤ
unfolding lower_code
scaled units none = none
scaled [] (some n) = some n
scaled (u ∷ us) (some n) =
    if eq_codes (map lower_code u) (codes "kb") then some (kilobytes n) else some n

abbrev meminfo_line : Option (Codes × Codes) → Stats → Stats
unfolding words int10 scaled
meminfo_line none d = d
meminfo_line (some (k, raw)) d = elim (words raw) [
  | [] ↦ d
  | v ∷ units ↦ store k (scaled units (int10 v)) d
]

unfoldable pub meminfo_lines : List Codes → Stats → Stats
unfolding meminfo_line split_first
meminfo_lines [] d = d
meminfo_lines (line ∷ lines) d = meminfo_lines lines (meminfo_line (split_first b':' line) d)

-- `_parse_meminfo`
unfoldable pub parse_meminfo : Option String → Stats
unfolding meminfo_lines split_lines
parse_meminfo none = []
parse_meminfo (some s) = meminfo_lines (split_lines (codes s)) []

meminfo_test :
    stat (codes "MemTotal") (parse_meminfo (some "Junk\nMemTotal:  64 kB\nPages: 7\n"))
    ≡ some (pos 65536)
unfolding parse_meminfo stat
meminfo_test = refl
