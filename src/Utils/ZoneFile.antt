-- ===== src/Utils/ZoneFile.antt =====
-- Reading a zone file: `ReadTimeZoneFile` of mytinyhttpd/utils/timezone.cc and the class `File` of
-- mytinyhttpd/utils/file.h and file.cc. A file is its bytes. An exception of `std::logic_error` or
-- of a class below it ends the reading and leaves what has been filled in; what the language leaves
-- undefined is `undefined`. Memory does not run out.
pub mod Ends
pub mod Header
use my_tiny_httpd.Prelude.{
  ℕ, zero, suc, ◌+◌, ◌-◌, ◌*◌, ◌^◌, Bool, true, false, not, List, [], ◌∷◌, ◌++◌, Option, none, some,
  ltb, leb, ◌==◌, if◌then◌else◌, length, get_elem?, take, drop, codes, bytes_eq, ℤ, pos, negsuc,
  ◌+ℤ◌,
}
use my_tiny_httpd.Utils.Transitions.{Transition, Localtime, Rep}

pub record Reading : Type 0 where
  pub rest : List ℕ
  pub rep : Rep

pub data Read {ℓ} (A : Type ℓ) : Type ℓ where
  got : A → Reading → Read A
  thrown : Reading → Read A
  undefined : Read A

abbrev pub M : Type 0 → Type 0
M A = Reading → Read A

infixl 5 ◌>>=◌ ◌>>◌
abbrev pub ◌>>=◌ : {A B : Type 0} → M A → (A → M B) → M B
◌>>=◌ m f r = elim (m r) [ got a r' ↦ f a r' | thrown r' ↦ thrown r' | undefined ↦ undefined ]

abbrev pub ◌>>◌ : {B : Type 0} → M (Unit {0}) → M B → M B
m >> k = m >>= λ _. k

abbrev pub throw_if : Bool → M (Unit {0})
throw_if true r = thrown r
throw_if false r = got tt r

-- `File::ReadBytes`.
pub read_bytes : ℕ → M (List ℕ)
read_bytes n r =
    if leb n (length r.rest)
    then got (take n r.rest) (record r { rest = drop n r.rest })
    else thrown r

-- `File::ReadUInt8`.
pub read_uint8 : M ℕ
read_uint8 r = elim r.rest [ [] ↦ thrown r | c ∷ cs ↦ got c (record r { rest = cs }) ]

abbrev pub int32 : ℕ → ℤ
int32 n = if ltb n (2 ^ 31) then pos n else negsuc (2 ^ 32 - 1 - n)

abbrev pub big_endian : ℕ → List ℕ → ℕ
big_endian acc [] = acc
big_endian acc (c ∷ cs) = big_endian (acc * 256 + c) cs

-- `File::ReadInt32`.
pub read_int32 : M ℤ
read_int32 = read_bytes 4 >>= λ bytes r. got (int32 (big_endian 0 bytes)) r

-- `for (int i = 0; i < count; ++i)`.
abbrev pub rounds : ℤ → ℕ
rounds (pos n) = n
rounds (negsuc n) = 0

abbrev pub is_negative : ℤ → Bool
is_negative (pos n) = false
is_negative (negsuc n) = true

pub read_times : ℕ → M (List ℤ)
read_times zero r = got [] r
read_times (suc n) r = (do t ← read_int32; ts ← read_times n; λ r'. got (t ∷ ts) r') r

pub read_indices : ℕ → M (List ℕ)
read_indices zero r = got [] r
read_indices (suc n) r = (do i ← read_uint8; is ← read_indices n; λ r'. got (i ∷ is) r') r

abbrev pub push_localtime : Localtime → M (Unit {0})
push_localtime l r = got tt (record r {
  rep = record {
    transitions = r.rep.transitions;
    localtimes = r.rep.localtimes ++ (l ∷ []);
    abbreviation = r.rep.abbreviation;
  };
})

pub read_localtimes : ℕ → M (Unit {0})
read_localtimes zero r = got tt r
read_localtimes (suc n) r =
    (do
      offset ← read_int32
      dst ← read_uint8
      index ← read_uint8
      push_localtime (record { gmt_offset = offset; is_dst = not (dst == 0); arrb_idx = index })
      read_localtimes n)
      r

abbrev pub push_transition : ℤ → ℕ → M (Unit {0})
push_transition time index r = elim (get_elem? r.rep.localtimes index) [
  | none ↦ undefined
  | some l ↦ got tt (record r {
    rep = record {
      transitions =
          r.rep.transitions
          ++ (record { gmttime = time; localtime = time +ℤ l.gmt_offset; localtime_idx = index }
              ∷ []);
      localtimes = r.rep.localtimes;
      abbreviation = r.rep.abbreviation;
    };
  })
]

pub push_transitions : List ℤ → List ℕ → M (Unit {0})
push_transitions [] is r = got tt r
push_transitions (t ∷ ts) [] r = undefined
push_transitions (t ∷ ts) (i ∷ is) r = (push_transition t i >> push_transitions ts is) r

-- `data->abbreviation = f.ReadBytes(charcnt)`, with an array of `charcnt` bytes.
pub read_abbreviation : ℤ → M (Unit {0})
read_abbreviation (negsuc n) r = undefined
read_abbreviation (pos n) r =
    (do
      chars ← read_bytes n
      λ r'. got tt (record r' {
        rep = record {
          transitions = r'.rep.transitions;
          localtimes = r'.rep.localtimes;
          abbreviation = chars;
        };
      }))
      r

-- Behind the version and the reserved bytes: the count of leap seconds is not read.
pub read_counts : M (Unit {0})
read_counts = do
  isgmtcnt ← read_int32
  isstdcnt ← read_int32
  timecnt ← read_int32
  typecnt ← read_int32
  charcnt ← read_int32
  throw_if (is_negative timecnt)
  trans ← read_times (rounds timecnt)
  localtimes ← read_indices (rounds timecnt)
  read_localtimes (rounds typecnt)
  push_transitions trans localtimes
  read_abbreviation charcnt

pub read_file : M (Unit {0})
read_file = do
  head ← read_bytes 4
  throw_if (not (bytes_eq head (codes "TZif")))
  version ← read_bytes 1
  reserved ← read_bytes 15
  read_counts

abbrev pub empty_rep : Rep
empty_rep = record { transitions = []; localtimes = []; abbreviation = [] }

-- `TimeZone(const char* zonefile)` of a file that can be opened.
pub read_time_zone_file : List ℕ → Option Rep
read_time_zone_file bytes = elim (read_file (record { rest = bytes; rep = empty_rep })) [
  | got a r ↦ some r.rep
  | thrown r ↦ some r.rep
  | undefined ↦ none
]
