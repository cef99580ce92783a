-- ===== src/Server/Config/File.antt =====
-- The reading of a configuration file in `read_conf_file` of server/config.c: the lines, which may
-- be longer than the buffer and may go on behind a backslash. A file is the list of its octets;
-- what the buffer has behind its first nul is never read, so that it is the string before it.
-- `bufsize` is an int in the code and an unbounded number here: that it stays below INT_MAX is a
-- matter of theorems, for files that are not too long.
pub mod Lines
pub mod Fgets
pub mod Gather
pub mod Fits
pub mod Logical
pub mod Rounds
use remctl.Base.{
  ℕ, zero, suc, ◌+◌, ◌-◌, Bool, true, false, not, ◌&&◌, ◌||◌, Option, none, some, List, [], ◌∷◌,
  ◌++◌, get_elem?, take, length, ltb, ◌==◌, if◌then◌else◌, Bytes,
}

-- The string in front of the first nul.
unfoldable pub c_string : Bytes → Bytes
c_string [] = []
c_string (c ∷ string) = if c == 0 then [] else c ∷ c_string string

-- The octets up to a newline, `n` at most, and those behind them.
unfoldable pub take_line : ℕ → Bytes → Bytes × Bytes
take_line zero string = ([], string)
take_line (suc n) [] = ([], [])
take_line (suc n) (c ∷ string) =
    if c == 10 then (c ∷ [], string) else (c ∷ (take_line n string).0, (take_line n string).1)

-- `fgets` with a buffer of `size` octets.
unfoldable pub fgets : ℕ → Bytes → Option (Bytes × Bytes)
unfolding take_line
fgets size [] = none
fgets size (c ∷ string) = some (take_line (size - 1) (c ∷ string))

-- The variables of the loop, and what the file still has.
pub record Reader : Type 0 where
  pub bufsize : ℕ
  pub buffer : Bytes
  pub lineno : ℕ
  pub unread : Bytes

-- A line that is read, `goto fail`, or no fuel left.
pub data Gathered : Type 0 where
  complete : Reader → Gathered
  broken no_fuel : Gathered

-- Whether the octet at `i` is `c`.
unfoldable pub is_octet : ℕ → Option ℕ → Bool
is_octet c none = false
is_octet c (some d) = d == c

-- `p[1] != '\n'`.
unfoldable pub is_partial : Bytes → Bool
unfolding is_octet
is_partial buffer = not (is_octet 10 (get_elem? buffer (length buffer - 1)))

-- `p[0] == '\\'`.
unfoldable pub has_backslash : Bytes → Bool
unfolding is_octet
has_backslash buffer = is_octet 92 (get_elem? buffer (length buffer - 2))

unfoldable pub is_unfinished : Bytes → Bool
unfolding is_partial has_backslash
is_unfinished buffer = ltb 2 (length buffer) && (is_partial buffer || has_backslash buffer)

-- A full buffer grows; a backslash is taken back with its newline.
unfoldable pub make_room : Reader → Reader
unfolding is_partial
make_room r =
    if is_partial r.buffer
    then record r { bufsize = r.bufsize + 1024 }
    else record r { buffer = take (length r.buffer - 2) r.buffer; lineno = r.lineno + 1 }

unfoldable pub append_read : Reader → Option (Bytes × Bytes) → (Reader → Gathered) → Gathered
unfolding c_string
append_read r none next = broken
append_read r (some (chunk, rest)) next =
    next (record r { buffer = c_string (r.buffer ++ chunk); unread = rest })

-- The inner loop: each round reads at least one octet.
unfoldable pub gather : ℕ → Reader → Gathered
unfolding is_unfinished make_room append_read fgets
gather zero r = no_fuel
gather (suc fuel) r =
    let r' = make_room r in
    if is_unfinished r.buffer
    then append_read r' (fgets (r'.bufsize - length r'.buffer) r'.unread) (gather fuel)
    else complete r

-- What a round of the outer loop reads: nothing more, an error, a line that is too short, or a
-- line without its newline.
pub data Round : Type 0 where
  end_of_file bad_line out_of_fuel : Round
  short_line line : Reader → Round

-- The newline is overwritten.
unfoldable pub cut_newline : Gathered → Round
cut_newline (complete r) =
    line (record r { buffer = take (length r.buffer - 1) r.buffer; lineno = r.lineno + 1 })
cut_newline broken = bad_line
cut_newline no_fuel = out_of_fuel

unfoldable pub first_read : Reader → Round
unfolding is_partial cut_newline gather
first_read r =
    if length r.buffer == 2 && is_partial r.buffer
    then bad_line
    else if ltb (length r.buffer) 2
    then short_line r
    else cut_newline (gather (suc (length r.unread)) r)

unfoldable pub start_line : Reader → Option (Bytes × Bytes) → Round
unfolding first_read c_string
start_line r none = end_of_file
start_line r (some (chunk, rest)) = first_read (record r { buffer = c_string chunk; unread = rest })

unfoldable pub next_line : Reader → Round
unfolding start_line fgets
next_line r = start_line r (fgets r.bufsize r.unread)
