-- ===== src/Util/Vector.antt =====
-- Splitting and joining of strings (util/vector.c). A C string is the list of its octets before the
-- nul, a vector the list of its strings; what a function stores is what it returns here, since the
-- callers pass no vector to reuse.
pub mod Split
pub mod Join
pub mod Multi
pub mod Words
use remctl.Base.{
  ℕ, zero, suc, ◌+◌, ◌-◌, ◌*◌, Bool, true, false, not, ◌&&◌, ◌||◌, List, [], ◌∷◌, ◌++◌, length,
  ◌==◌, if◌then◌else◌, Bytes,
}

-- The loop of `split_count` from `p` on.
pub count_from : ℕ → Bytes → ℕ
count_from separator [] = 1
count_from separator (c ∷ string) =
    if c == separator then suc (count_from separator string) else count_from separator string

-- The empty string counts for one as well.
unfoldable pub split_count : ℕ → Bytes → ℕ
unfolding count_from
split_count separator string = count_from separator string

-- The loop of `vector_split`: `piece` is what lies between `start` and `p`.
pub split_from : ℕ → Bytes → Bytes → List Bytes
split_from separator piece [] = piece ∷ []
split_from separator piece (c ∷ string) =
    let next = split_from separator (if c == separator then [] else piece ++ c ∷ []) string in
    if c == separator then piece ∷ next else next

unfoldable pub vector_split : ℕ → Bytes → List Bytes
unfolding split_from
vector_split separator string = split_from separator [] string

-- `strchr(seps, c) != NULL` for an octet that is not nul.
unfoldable pub strchr : Bytes → ℕ → Bool
strchr [] c = false
strchr (s ∷ seps) c = s == c || strchr seps c

-- The loop of `split_multi_count` behind the first octet: `last` is `p[-1]`, `count` the number that
-- the loop has. Behind it, separators at the end count for one too many.
pub multi_count_from : Bytes → ℕ → ℕ → Bytes → ℕ
unfolding strchr
multi_count_from seps last count [] = if strchr seps last then count - 1 else count
multi_count_from seps last count (c ∷ string) =
    multi_count_from seps c (if strchr seps c && not (strchr seps last) then count + 1 else count)
      string

unfoldable pub split_multi_count : Bytes → Bytes → ℕ
unfolding multi_count_from
split_multi_count seps [] = 0
split_multi_count seps (c ∷ string) = multi_count_from seps c 1 string

-- `start != p`: a string is stored only if it is not empty.
pub store : Bytes → List Bytes → List Bytes
store [] strings = strings
store (c ∷ piece) strings = (c ∷ piece) ∷ strings

-- The loop of `vector_split_multi`.
pub split_multi_from : Bytes → Bytes → Bytes → List Bytes
unfolding strchr store
split_multi_from seps piece [] = store piece []
split_multi_from seps piece (c ∷ string) =
    let next = split_multi_from seps (if strchr seps c then [] else piece ++ c ∷ []) string in
    if strchr seps c then store piece next else next

unfoldable pub vector_split_multi : Bytes → Bytes → List Bytes
unfolding split_multi_from
vector_split_multi seps string = split_multi_from seps [] string

unfoldable pub vector_split_space : Bytes → List Bytes
unfolding vector_split_multi
vector_split_space string = vector_split_multi (b' ' ∷ 9 ∷ []) string

-- The strings behind the first, each with the separator before it.
pub join_more : List Bytes → Bytes → Bytes
join_more [] separator = []
join_more (string ∷ vector) separator = separator ++ string ++ join_more vector separator

unfoldable pub vector_join : List Bytes → Bytes → Bytes
unfolding join_more
vector_join [] separator = []
vector_join (string ∷ vector) separator = string ++ join_more vector separator

-- The size that `vector_join` allocates, the nul included.
pub total : List Bytes → ℕ
total [] = 0
total (string ∷ vector) = length string + total vector

unfoldable pub join_size : List Bytes → Bytes → ℕ
unfolding total
join_size [] separator = 1
join_size vector separator = total vector + ((length vector - 1) * length separator + 1)
