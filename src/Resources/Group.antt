-- ===== src/Resources/Group.antt =====
-- tools/pod_resources.py: the resident memory of a process group, as one snapshot of /proc.
pub mod Conclude
pub mod Examples
pub mod Sum
pub mod Sampled
pub mod Samples
pub mod Watch
use Prim.Native.Char.{code}
use runpod_sageattention.Base.{
  ℕ, zero, suc, ◌+◌, ◌*◌, max, ◌≡◌, refl, String, str_eq, Bool, true, false, not, ◌&&◌, ◌||◌,
  Option, none, some, List, [], ◌∷◌, ◌++◌, ◌==◌, ltb, leb, map, any, all, is_nil, reverse,
  if◌then◌else◌,
}
use runpod_sageattention.Base.Int.{ℤ, pos, negsuc, eqb_ℤ}
use runpod_sageattention.Base.Text.{
  Codes, codes, eq_codes, lower_code, is_infix, is_prefix, is_digit, words, int10,
}
use runpod_sageattention.Job.Failure.{Result, ok, err, Failure, value_error, refuse_if, ◌>>=◌, ◌>>◌}
use runpod_sageattention.Job.Spec.{contains}

abbrev keep_first : Option Codes → Option Codes → Option Codes
keep_first none o = o
keep_first (some s) o = some s

-- the text behind the last `)`
unfoldable pub after_last : ℕ → Codes → Option Codes
after_last c [] = none
after_last c (d ∷ s) = keep_first (after_last c s) (if d == c then some s else none)

-- `fields[2]`
abbrev third : List Codes → Option Codes
third (a ∷ b ∷ c ∷ rest) = some c
third _ = none

abbrev positive : Option ℤ → Option ℕ
positive (some (pos (suc n))) = some (suc n)
positive _ = none

abbrev group_of_fields : Option Codes → Option ℕ
unfolding int10
group_of_fields none = none
group_of_fields (some field) = positive (int10 field)

abbrev fields_behind : Option Codes → Option Codes
unfolding words
fields_behind none = none
fields_behind (some s) = third (words s)

-- `_process_group_from_stat`
unfoldable pub process_group_from_stat : String → Option ℕ
unfolding after_last group_of_fields fields_behind
process_group_from_stat text = group_of_fields (fields_behind (after_last b')' (codes text)))

-- `_is_compiler_executable`
unfoldable pub is_compiler_executable : String → Bool
unfolding lower_code is_infix is_prefix
is_compiler_executable name =
    let lowered = map lower_code (codes name) in
    any (eq_codes lowered) (codes "c++" ∷ codes "cc1plus" ∷ codes "nvcc" ∷ codes "ptxas" ∷ [])
    || (is_infix (codes "nvcc") lowered
        || (is_infix (codes "ptxas") lowered
            || (is_infix (codes "g++") lowered
                || is_prefix (reverse (codes "-c++")) (reverse lowered))))

-- An entry of /proc: its name, the texts that can be read, and the target of `exe`.
pub record Process : Type 0 where
  pub name : String
  pub stat : Option String
  pub statm : Option String
  pub exe : Option String

unfoldable pub has_slash : String → Bool
has_slash String.[] = false
has_slash (String.◌∷◌ c s) = (code c == b'/') || has_slash s

-- `os.path.basename`
unfoldable pub basename : String → String
unfolding has_slash
basename String.[] = ""
basename (String.◌∷◌ c s) =
    let rest = basename s in
    if has_slash s then rest else if code c == b'/' then s else String.◌∷◌ c s

abbrev is_group : ℕ → Option ℕ → Bool
is_group group none = false
is_group group (some n) = n == group

abbrev in_group : ℕ → Option String → Bool
unfolding process_group_from_stat
in_group group none = false
in_group group (some text) = is_group group (process_group_from_stat text)

-- the pages of a `statm` file: its second number
abbrev second : List Codes → Option Codes
second (a ∷ b ∷ rest) = some b
second _ = none

abbrev natural : Option ℤ → Option ℕ
natural (some (pos n)) = some n
natural _ = none

abbrev pages_of_field : Option Codes → Option ℕ
unfolding int10
pages_of_field none = none
pages_of_field (some field) = natural (int10 field)

unfoldable pub pages_of : Option String → Option ℕ
unfolding words pages_of_field
pages_of none = none
pages_of (some text) = pages_of_field (second (words (codes text)))

-- `entry.name.isdigit()` on ASCII
unfoldable pub is_pid : String → Bool
unfolding is_digit
is_pid name = not (is_nil (codes name)) && all is_digit (codes name)

-- The resident pages of a member of the group.
unfoldable pub member_pages : ℕ → Process → Option ℕ
unfolding is_pid pages_of in_group
member_pages group p = if is_pid p.name && in_group group p.stat then pages_of p.statm else none

abbrev pub executable : Option String → String
unfolding basename
executable none = ""
executable (some target) = basename target

abbrev pub add_compiler : String → List String → List String
unfolding contains is_compiler_executable
add_compiler name names =
    if not (str_eq name "") && (is_compiler_executable name && not (contains name names))
    then names ++ name ∷ []
    else names

abbrev is_number_of : ℕ → Option ℤ → Bool
is_number_of pid (some (pos n)) = n == pid
is_number_of pid _ = false

abbrev is_leader : Option ℕ → String → Bool
unfolding int10
is_leader none name = false
is_leader (some pid) name = is_number_of pid (int10 (codes name))

-- What `_collect_process_group_details` returns.
pub record Details : Type 0 where
  pub pages : ℕ
  pub count : ℕ
  pub leader : Bool
  pub compilers : List String

abbrev pub no_details : Details
no_details = record { pages = 0; count = 0; leader = false; compilers = [] }

abbrev pub add_member : Option ℕ → Option ℕ → Process → Details → Details
unfolding is_leader add_compiler executable
add_member none leader p d = d
add_member (some pages) leader p d = record {
  pages = d.pages + pages;
  count = suc d.count;
  leader = d.leader || is_leader leader p.name;
  compilers = add_compiler (executable p.exe) d.compilers;
}

-- The loop over the entries of /proc.
unfoldable pub add_entries : ℕ → Option ℕ → List Process → Details → Details
unfolding member_pages add_member
add_entries group leader [] d = d
add_entries group leader (p ∷ ps) d =
    add_entries group leader ps (add_member (member_pages group p) leader p d)

abbrev listed : Option (List Process) → Result (List Process)
listed none = err (value_error "cannot enumerate /proc")
listed (some entries) = ok entries

-- `_collect_process_group_details`; `none` is a /proc that cannot be listed
unfoldable pub collect_process_group_details :
    ℕ → ℕ → Option ℕ → Option (List Process) → Result Details
unfolding add_entries
collect_process_group_details group page_size leader listing = do
  refuse_if (group == 0) "process group must be positive"
  refuse_if (page_size == 0) "page size must be positive"
  entries ← listed listing
  ok (add_entries group leader entries no_details)
