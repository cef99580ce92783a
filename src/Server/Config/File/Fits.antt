-- ===== src/Server/Config/File/Fits.antt =====
-- The buffer of `read_conf_file` of server/config.c, whose size is an int there, in the inner loop.
use mathlib.Core.Path.{subst}
use remctl.Base.{
  ℕ, zero, suc, ◌+◌, ◌-◌, ◌<◌, ◌≤◌, ◌≡◌, sym, ap, ◌∙◌, ◌⊎◌, inl, inr, true, false, Bool-cases,
  Option, none, some, [], ◌∷◌, ◌++◌, take, length, length-append, length-take, ◌==◌, Bytes, arith,
  All-append, All-take,
}
use remctl.Server.Config.File.{
  Reader, complete, c_string, fgets, is_partial, is_unfinished, make_room, append_read, gather,
}
use remctl.Server.Config.File.Fgets.{Takes, fgets-Takes, is_partial-append}
use remctl.Server.Config.File.Gather.{NoNul, c_string_lem, NoNul-split}

abbrev pub int_max : ℕ
int_max = 2147483647

-- What follows a call of `fgets` that is behind the start of a line has `Q`.
abbrev AppendFits : Reader → Option (Bytes × Bytes) → (Reader → Type 0) → Type 0
AppendFits r none Q = Unit
AppendFits r (some (chunk, rest)) Q =
    Q (record r { buffer = c_string (r.buffer ++ chunk); unread = rest })

-- Each time that the inner loop makes room in the buffer, the size fits an int.
abbrev pub GatherFits : ℕ → Reader → Type 0
GatherFits zero r = Unit
GatherFits (suc fuel) r =
    is_unfinished r.buffer ≡ true
    → ((make_room r).bufsize ≤ int_max)
      × AppendFits (make_room r)
          (fgets ((make_room r).bufsize - length (make_room r).buffer) (make_room r).unread)
          (GatherFits fuel)

module _ (whole : ℕ) where
  -- The state between two lines of a file of `whole` octets.
  pub record Between (r : Reader) : Type 0 where
    pub low : 1024 ≤ r.bufsize
    pub high : r.bufsize ≤ whole + 1025
    pub left : length r.unread ≤ whole
    pub clean : NoNul r.unread

  -- The state in a line: a buffer that ends without a newline is full, or the file is at its end.
  pub record Within (r : Reader) : Type 0 where
    pub between : Between r
    pub fits : length r.buffer < r.bufsize
    pub inside : length r.buffer + length r.unread ≤ whole
    pub clean_buffer : NoNul r.buffer
    pub why : is_partial r.buffer ≡ true → (length r.buffer + 1 ≡ r.bufsize) ⊎ (r.unread ≡ [])

  -- What one more `fgets` leaves.
  pub taken-Within :
      (r : Reader) (s x y : Bytes)
      → Between r
      → NoNul r.buffer
      → NoNul s
      → length r.buffer + 2 ≤ r.bufsize
      → length r.buffer + length s ≤ whole
      → Takes (r.bufsize - length r.buffer - 1) s x y
      → Within (record r { buffer = r.buffer ++ x; unread = y })
  taken-Within r s x y b clean whole_clean room inside t =
      let (clean_x, clean_y) = NoNul-split x y (subst NoNul t.splits whole_clean) in
      let shorter : length x + length y ≡ length s =
        sym (length-append x y) ∙ ap length (sym t.splits) in
      let long = length-append r.buffer x in
      record {
        between = record {
          low = b.low;
          high = b.high;
          left = omega (arith, shorter, inside);
          clean = clean_y;
        };
        fits = omega (arith, long, t.bounded, room);
        inside = omega (arith, long, shorter, inside);
        clean_buffer = All-append (λ c. (c == 0) ≡ false) r.buffer x clean clean_x;
        why = λ partial. elim t.piece [
          | inl (closed, _) ↦
              absurd (cc (sym partial ∙ is_partial-append r.buffer x t.some_octet ∙ closed))
          | inr (_, _, inl full) ↦ inl (omega (arith, long, full, room))
          | inr (_, _, inr last) ↦ inr last
        ];
      }

module _ (whole : ℕ) (small : whole + 2049 ≤ int_max) where
  -- The loop fits, and a line that it reads leaves a state between two lines.
  abbrev pub Keeps : ℕ → Reader → Type 0
  Keeps fuel r =
      GatherFits fuel r × ((r' : Reader) → gather fuel r ≡ complete r' → Between whole r')

  abbrev AppendKeeps : ℕ → Reader → Option (Bytes × Bytes) → Type 0
  AppendKeeps fuel r read =
      AppendFits r read (GatherFits fuel)
      × ((r' : Reader) → append_read r read (gather fuel) ≡ complete r' → Between whole r')

  append-last : (fuel size : ℕ) (r : Reader) → AppendKeeps fuel r (fgets size [])
  append-last fuel size r = unfold fgets append_read in (tt, λ r' e. absurd (cc e))

  append-Keeps :
      (fuel : ℕ)
      → ((r : Reader) → Within whole r → Keeps fuel r)
      → (r : Reader) (s : Bytes) → Between whole r
      → NoNul r.buffer
      → NoNul s
      → length r.buffer + 2 ≤ r.bufsize
      → length r.buffer + length s ≤ whole
      → AppendKeeps fuel r (fgets (r.bufsize - length r.buffer) s)
  append-Keeps fuel keeps r [] b clean clean_s room inside = append-last fuel _ r
  append-Keeps fuel keeps r (c ∷ s) b clean clean_s room inside =
      let (x, y, read, t) = fgets-Takes (r.bufsize - length r.buffer) c s (omega (arith, room)) in
      let (clean_x, clean_y) = NoNul-split x y (subst NoNul t.splits clean_s) in
      let within = taken-Within whole r (c ∷ s) x y b clean clean_s room inside t in
      let same_buffer =
        c_string_lem (r.buffer ++ x)
          (All-append (λ c. (c == 0) ≡ false) r.buffer x clean clean_x) in
      rw read (unfold append_read in rw same_buffer (keeps _ within))

  -- A full buffer grows, and a backslash is taken back.
  room-Keeps :
      (fuel : ℕ)
      → ((r : Reader) → Within whole r → Keeps fuel r)
      → (r : Reader) → Within whole r
      → is_unfinished r.buffer ≡ true
      → ((make_room r).bufsize ≤ int_max)
        × AppendKeeps fuel
            (make_room r)
            (fgets ((make_room r).bufsize - length (make_room r).buffer) (make_room r).unread)
  unfolding is_unfinished make_room
  room-Keeps fuel keeps r w unfinished = elim (Bool-cases (is_partial r.buffer)) [
    | inl p ↦ rw p (elim (w.why p) [
      | inl full ↦ (
        omega (arith, w.between.high, small, full, w.inside),
        append-Keeps fuel keeps (record r { bufsize = r.bufsize + 1024 }) r.unread
            (record {
              low = omega (arith, w.between.low);
              high = omega (arith, full, w.inside);
              left = w.between.left;
              clean = w.between.clean;
            })
            w.clean_buffer w.between.clean (omega (arith, w.fits)) w.inside,
      )
      | inr last ↦ (omega (arith, w.between.high, small), rw last (append-last fuel _ _))
    ])
    | inr q ↦
        let shorter = length-take (length r.buffer - 2) r.buffer in
        let long : 2 < length r.buffer = ground arith in
        rw q (
          omega (arith, w.between.high, small),
          append-Keeps fuel keeps
              (record r { buffer = take (length r.buffer - 2) r.buffer; lineno = r.lineno + 1 })
              r.unread
              (record {
                low = w.between.low;
                high = w.between.high;
                left = w.between.left;
                clean = w.between.clean;
              })
              (All-take (λ c. (c == 0) ≡ false) (length r.buffer - 2) r.buffer w.clean_buffer)
              w.between.clean (omega (arith, shorter, w.fits, long))
              (omega (arith, shorter, w.inside)),
        )
  ]

  pub gather-Keeps : (fuel : ℕ) (r : Reader) → Within whole r → Keeps fuel r
  unfolding gather
  gather-Keeps zero r w = (tt, λ r' e. absurd (cc e))
  gather-Keeps (suc fuel) r w = elim (Bool-cases (is_unfinished r.buffer)) [
    | inl e ↦
        let (fits, keeps) = room-Keeps fuel (gather-Keeps fuel) r w e in
        ((λ _. (fits, keeps.0)), rw e keeps.1)
    | inr e ↦
        ((λ e'. absurd (cc (sym e ∙ e'))), rw e (λ r' h. subst (Between whole) (cc h) w.between))
  ]
