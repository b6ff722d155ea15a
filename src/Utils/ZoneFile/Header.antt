-- ===== src/Utils/ZoneFile/Header.antt =====
-- What `ReadTimeZoneFile` of mytinyhttpd/utils/timezone.cc makes of a zone file of version 1.
use my_tiny_httpd.Prelude.{
  ℕ, suc, ◌^◌, ◌<◌, ◌≡◌, refl, sym, ap, ◌∙◌, not, List, [], ◌∷◌, ◌++◌, Option, none, some, le→leb,
  lt→ltb, ◌==◌, length, get_elem?, take-append_self, drop-append_self, length-append, codes, ok, ℤ,
  pos, ◌+ℤ◌, arith,
}
use my_tiny_httpd.Utils.Transitions.{Localtime, Rep, find_localtime, to_local_seconds}
use my_tiny_httpd.Utils.ZoneFile.{
  Reading, Read, got, thrown, undefined, read_bytes, read_uint8, read_int32, read_times,
  read_indices, read_localtimes, push_transitions, read_counts, read_file, empty_rep,
  read_time_zone_file, int32, big_endian,
}
use my_tiny_httpd.Utils.ZoneFile.Ends.{
  int32_bytes, zone_file, Ends, Ends->>=, Ends-got, Starts, read_localtimes-Starts,
  push_transitions-Starts, read_abbreviation-Starts,
}

abbrev reading : List ℕ → Reading
reading bytes = record { rest = bytes; rep = empty_rep }

read_bytes-append :
    (n : ℕ) (xs ys : List ℕ)
    → n ≡ length xs
    → read_bytes n (reading (xs ++ ys)) ≡ got xs (reading ys)
unfolding read_bytes
read_bytes-append n xs ys h = rw (
  le→leb n (length (xs ++ ys)) (omega (arith, length-append xs ys)),
  take-append_self n xs ys h,
  drop-append_self n xs ys h,
)

read_int32-int32_bytes :
    (n : ℕ) (ys : List ℕ)
    → n < 2 ^ 31
    → read_int32 (reading (int32_bytes n ++ ys)) ≡ got (pos n) (reading ys)
unfolding read_int32
read_int32-int32_bytes n ys h =
    let value : big_endian 0 (int32_bytes n) ≡ n = omega arith in
    let whole : int32 (big_endian 0 (int32_bytes n)) ≡ pos n = rw (value, lt→ltb n (2 ^ 31) h) in
    ap
      (λ m. elim m [
        | got bytes r ↦ got (int32 (big_endian 0 bytes)) r
        | thrown r ↦ thrown r
        | undefined ↦ undefined
      ])
      (read_bytes-append 4 (int32_bytes n) ys refl)
    ∙ ap (λ z. got z (reading ys)) whole

-- The local time that the count of name bytes and the first two bytes of the data make.
abbrev pub misread : ℕ → ℕ → ℕ → Localtime
misread charcnt b1 b2 = record { gmt_offset = pos charcnt; is_dst = not (b1 == 0); arrb_idx = b2 }

read_localtimes-misread :
    (charcnt b1 b2 k : ℕ) (body : List ℕ)
    → charcnt < 2 ^ 31
    → Ends
        (Starts (misread charcnt b1 b2))
        (read_localtimes (suc k) (reading (int32_bytes charcnt ++ (b1 ∷ b2 ∷ body))))
unfolding read_localtimes read_uint8
read_localtimes-misread charcnt b1 b2 k body h =
    Ends-got (Starts (misread charcnt b1 b2)) _ _
      (read_int32-int32_bytes charcnt (b1 ∷ b2 ∷ body) h)
      (read_localtimes-Starts (misread charcnt b1 b2) k _ (refl, refl))

read_counts-misread :
    (isutcnt isstdcnt timecnt typecnt charcnt b1 b2 : ℕ) (body : List ℕ)
    → isutcnt < 2 ^ 31
    → isstdcnt < 2 ^ 31
    → suc timecnt < 2 ^ 31
    → typecnt < 2 ^ 31
    → charcnt < 2 ^ 31
    → Ends (Starts (misread charcnt b1 b2)) (
        read_counts (
          reading (
            int32_bytes isutcnt
            ++ (int32_bytes isstdcnt
                ++ (int32_bytes 0
                    ++ (int32_bytes (suc timecnt)
                        ++ (int32_bytes typecnt ++ (int32_bytes charcnt ++ (b1 ∷ b2 ∷ body)))))))))
unfolding read_counts read_times read_indices
read_counts-misread isutcnt isstdcnt timecnt typecnt charcnt b1 b2 body h1 h2 h3 h4 h5 =
    let data5 = b1 ∷ b2 ∷ body in
    let data4 = int32_bytes charcnt ++ data5 in
    let data3 = int32_bytes typecnt ++ data4 in
    let data2 = int32_bytes (suc timecnt) ++ data3 in
    let data1 = int32_bytes 0 ++ data2 in
    Ends-got (Starts l) _ _ (read_int32-int32_bytes isutcnt (int32_bytes isstdcnt ++ data1) h1) (
      Ends-got (Starts l) _ _ (read_int32-int32_bytes isstdcnt data1 h2) (
        Ends-got (Starts l) _ _ (read_int32-int32_bytes 0 data2 (omega arith)) (
          Ends-got (Starts l) _ _ (read_int32-int32_bytes (suc timecnt) data3 h3) (
            Ends-got (Starts l) _ _ (read_int32-int32_bytes typecnt data4 h4) (
              Ends->>= (Starts l) (read_localtimes (suc timecnt) (reading data4)) _
                (read_localtimes-misread charcnt b1 b2 timecnt body h5)
                λ a r1 k1.
                  Ends->>= (Starts l) (push_transitions [] [] r1) _
                    (push_transitions-Starts l [] r1 k1)
                    λ b r2 k2. read_abbreviation-Starts l typecnt r2 k2)))))
  where
    l : Localtime
    l = misread charcnt b1 b2

-- What the constructor leaves where the reading has ended.
abbrev left : Read (Unit {0}) → Option Rep
left (got a r) = some r.rep
left (thrown r) = some r.rep
left undefined = none

left-Starts :
    (l : Localtime) (m : Read (Unit {0}))
    → Ends (Starts l) m
    → (rep : Rep) × (left m ≡ some rep)
      × (rep.transitions ≡ [])
      × (get_elem? rep.localtimes 0 ≡ some l)
left-Starts l (got a r) h = (r.rep, refl, h.0, h.1)
left-Starts l (thrown r) h = (r.rep, refl, h.0, h.1)
left-Starts l undefined h = elim h [ ]

to_local_seconds-first :
    (l : Localtime) (rep : Rep) (t : ℤ)
    → rep.transitions ≡ []
    → get_elem? rep.localtimes 0 ≡ some l
    → to_local_seconds rep t ≡ ok (t +ℤ l.gmt_offset, l)
unfolding to_local_seconds find_localtime
to_local_seconds-first l rep t h k = ground arith

agree :
    (m : Read (Unit {0}))
    → (elim m [ got a r ↦ some r.rep | thrown r ↦ some r.rep | undefined ↦ none ]) ≡ left m
agree (got a r) = refl
agree (thrown r) = refl
agree undefined = refl

read_time_zone_file-left :
    (bytes : List ℕ) → read_time_zone_file bytes ≡ left (read_file (reading bytes))
unfolding read_time_zone_file
read_time_zone_file-left bytes = agree (read_file (reading bytes))

read_file-counts :
    (l : Localtime) (version : ℕ) (reserved counts : List ℕ)
    → length reserved ≡ 15
    → Ends (Starts l) (read_counts (reading counts))
    → Ends
        (Starts l)
        (read_file (reading (codes "TZif" ++ ((version ∷ []) ++ (reserved ++ counts)))))
unfolding read_file
read_file-counts l version reserved counts h k =
    let behind = (version ∷ []) ++ (reserved ++ counts) in
    Ends-got (Starts l) _ _ (read_bytes-append 4 (codes "TZif") behind refl) (
      Ends-got (Starts l) _ _ (read_bytes-append 1 (version ∷ []) (reserved ++ counts) refl)
        (Ends-got (Starts l) _ _ (read_bytes-append 15 reserved counts (sym h)) k))

-- A zone file without leap seconds and with at least one transition is misread, since the count of
-- leap seconds is taken for that of transitions: no transition is found, and every time is moved by
-- as many seconds as the names of the local times have bytes.
pub read_time_zone_file-misread :
    (version : ℕ) (reserved : List ℕ) (isutcnt isstdcnt timecnt typecnt charcnt b1 b2 : ℕ)
    (body : List ℕ)
    → length reserved ≡ 15
    → isutcnt < 2 ^ 31
    → isstdcnt < 2 ^ 31
    → suc timecnt < 2 ^ 31
    → typecnt < 2 ^ 31
    → charcnt < 2 ^ 31
    → (rep : Rep) × (read_time_zone_file (
          zone_file version reserved isutcnt isstdcnt 0
            (suc timecnt)
            typecnt
            charcnt
            (b1 ∷ b2 ∷ body))
        ≡ some rep)
      × (rep.transitions ≡ [])
      × ((t : ℤ) → to_local_seconds rep t ≡ ok (t +ℤ pos charcnt, misread charcnt b1 b2))
read_time_zone_file-misread version reserved isutcnt isstdcnt timecnt typecnt charcnt b1 b2 body h0
      h1 h2 h3 h4 h5 =
    let l = misread charcnt b1 b2 in
    let counts =
      int32_bytes isutcnt
      ++ (int32_bytes isstdcnt
          ++ (int32_bytes 0
              ++ (int32_bytes (suc timecnt)
                  ++ (int32_bytes typecnt ++ (int32_bytes charcnt ++ (b1 ∷ b2 ∷ body)))))) in
    let file = codes "TZif" ++ ((version ∷ []) ++ (reserved ++ counts)) in
    let (rep, e, none_read, first) = left-Starts l (read_file (reading file)) (
      read_file-counts l version reserved counts h0
        (read_counts-misread isutcnt isstdcnt timecnt typecnt charcnt b1 b2 body h1 h2 h3 h4 h5)) in
    (
      rep,
      read_time_zone_file-left file ∙ e,
      none_read,
      λ t. to_local_seconds-first l rep t none_read first,
    )
