-- ===== src/Utils/ZoneFile/Ends.antt =====
-- What the steps of reading a zone file in mytinyhttpd/utils/timezone.cc keep, however they end.
use my_tiny_httpd.Prelude.{
  ℕ, zero, suc, ◌/◌, ◌%◌, ◌^◌, ◌≡◌, sym, subst, List, [], ◌∷◌, ◌++◌, some, Never, leb, length,
  get_elem?, codes, pos, inl, inr, Bool-cases,
}
use my_tiny_httpd.Utils.Transitions.{Localtime}
use my_tiny_httpd.Utils.ZoneFile.{
  Reading, Read, got, thrown, undefined, M, read_bytes, read_uint8, read_int32, read_localtimes,
  push_transitions, read_abbreviation, int32, big_endian,
}

-- A number below 2 ^ 32 in four bytes, the first one the highest.
abbrev pub int32_bytes : ℕ → List ℕ
int32_bytes n = (n / 2 ^ 24 % 256) ∷ (n / 2 ^ 16 % 256) ∷ (n / 2 ^ 8 % 256) ∷ (n % 256) ∷ []

-- RFC 8536: the magic, the version and fifteen reserved bytes, then six counts: those of the UTC
-- and of the standard indicators, of leap seconds, of transitions, of local times and of the bytes
-- of their names; then the data.
abbrev pub zone_file : ℕ → List ℕ → ℕ → ℕ → ℕ → ℕ → ℕ → ℕ → List ℕ → List ℕ
zone_file version reserved isutcnt isstdcnt leapcnt timecnt typecnt charcnt body =
    codes "TZif"
    ++ ((version ∷ [])
        ++ (reserved
            ++ (int32_bytes isutcnt
                ++ (int32_bytes isstdcnt
                    ++ (int32_bytes leapcnt
                        ++ (int32_bytes timecnt
                            ++ (int32_bytes typecnt ++ (int32_bytes charcnt ++ body))))))))

-- However the reading ends, what has been filled in has the property.
abbrev pub Ends : {A : Type 0} → (Reading → Type 0) → Read A → Type 0
Ends P (got a r) = P r
Ends P (thrown r) = P r
Ends P undefined = Never

pub Ends->>= :
    {A B : Type 0} (P : Reading → Type 0) (m : Read A) (f : A → M B)
    → Ends P m
    → ((a : A) (r : Reading) → P r → Ends P (f a r))
    → Ends P (elim m [ got a r' ↦ f a r' | thrown r' ↦ thrown r' | undefined ↦ undefined ])
Ends->>= P (got a r) f h k = k a r h
Ends->>= P (thrown r) f h k = h
Ends->>= P undefined f h k = elim h [ ]

-- A step whose outcome is known.
pub Ends-got :
    {A B : Type 0} (P : Reading → Type 0) (m : Read A) (f : A → M B) {a : A} {r : Reading}
    → m ≡ got a r
    → Ends P (f a r)
    → Ends P (elim m [ got a r' ↦ f a r' | thrown r' ↦ thrown r' | undefined ↦ undefined ])
Ends-got P m f e h =
    subst
      (λ n. Ends P (elim n [ got a r' ↦ f a r' | thrown r' ↦ thrown r' | undefined ↦ undefined ]))
      (sym e) h

-- No transition has been read, and the first local time is known.
abbrev pub Starts : Localtime → Reading → Type 0
Starts l r = (r.rep.transitions ≡ []) × (get_elem? r.rep.localtimes 0 ≡ some l)

first_kept :
    (l : Localtime) (ls ms : List Localtime)
    → get_elem? ls 0 ≡ some l
    → get_elem? (ls ++ ms) 0 ≡ some l
first_kept l [] ms h = cc
first_kept l (k ∷ ls) ms h = h

read_bytes-Starts :
    (l : Localtime) (n : ℕ) (r : Reading) → Starts l r → Ends (Starts l) (read_bytes n r)
unfolding read_bytes
read_bytes-Starts l n r h = elim (Bool-cases (leb n (length r.rest))) [
  | inl e ↦ rw e h
  | inr e ↦ rw e h
]

read_uint8-Starts : (l : Localtime) (r : Reading) → Starts l r → Ends (Starts l) (read_uint8 r)
unfolding read_uint8
read_uint8-Starts l r h =
    elim r.rest
      as (λ xs.
        Ends (Starts l) (elim xs [ [] ↦ thrown r | c ∷ cs ↦ got c (record r { rest = cs }) ])) [
          | [] ↦ h
          | c ∷ cs ↦ h
        ]

read_int32-Starts : (l : Localtime) (r : Reading) → Starts l r → Ends (Starts l) (read_int32 r)
unfolding read_int32
read_int32-Starts l r h =
    Ends->>= (Starts l) (read_bytes 4 r) (λ bytes r'. got (int32 (big_endian 0 bytes)) r')
      (read_bytes-Starts l 4 r h) λ a r' k. k

pub read_localtimes-Starts :
    (l : Localtime) (n : ℕ) (r : Reading) → Starts l r → Ends (Starts l) (read_localtimes n r)
unfolding read_localtimes
read_localtimes-Starts l zero r h = h
read_localtimes-Starts l (suc n) r h =
    Ends->>= (Starts l) (read_int32 r) _ (read_int32-Starts l r h) λ offset r1 h1.
      Ends->>= (Starts l) (read_uint8 r1) _ (read_uint8-Starts l r1 h1) λ dst r2 h2.
        Ends->>= (Starts l) (read_uint8 r2) _ (read_uint8-Starts l r2 h2)
          λ index r3 h3. read_localtimes-Starts l n _ (h3.0, first_kept l r3.rep.localtimes _ h3.1)

pub push_transitions-Starts :
    (l : Localtime) (is : List ℕ) (r : Reading)
    → Starts l r
    → Ends (Starts l) (push_transitions [] is r)
unfolding push_transitions
push_transitions-Starts l is r h = h

pub read_abbreviation-Starts :
    (l : Localtime) (n : ℕ) (r : Reading)
    → Starts l r
    → Ends (Starts l) (read_abbreviation (pos n) r)
unfolding read_abbreviation
read_abbreviation-Starts l n r h =
    Ends->>= (Starts l) (read_bytes n r) _ (read_bytes-Starts l n r h) λ chars r' k. k
