-- ===== src/Types/Version.antt =====
-- pkg/types/version.go. The runtime and the time are arguments.
use airfk.Shared.{
  ℕ, zero, suc, ◌-◌, ◌/◌, ◌∷◌, ◌++◌, Bytes, codes, leb, length, take, replicate, text_eq,
  if◌then◌else◌,
}
use airfk.Shared.Int.{ℤ, pos, negsuc}
use airfk.GoStd.Decimal.{decimal}

-- What the methods of time.Time say; the offset is in seconds.
pub record Time : Type 0 where
  pub zone : Bytes
  pub offset : ℤ
  pub year : ℕ
  pub month : ℕ
  pub day : ℕ
  pub hour : ℕ
  pub minute : ℕ
  pub second : ℕ
  pub nanosecond : ℕ

pub record Version : Type 0 where
  pub ver : Bytes
  pub runtime : Bytes
  pub timestamp : Time

unfoldable pub new_version : Bytes → Bytes → Time → Version
new_version ver runtime now = record { ver = ver; runtime = runtime; timestamp = now }

-- The verb %0<width>d.
unfoldable pub padded : ℕ → ℕ → Bytes
unfolding decimal
padded width n = let s = decimal n in replicate (width - length s) b'0' ++ s

unfoldable pub padded_int : ℕ → ℤ → Bytes
unfolding padded
padded_int width (pos n) = padded width n
padded_int width (negsuc n) = b'-' ∷ padded (width - 1) (suc n)

-- The division of Go, towards zero.
unfoldable pub hours : ℤ → ℤ
hours (pos n) = pos (n / 3600)
hours (negsuc n) = elim (suc n / 3600) [ zero ↦ pos 0 | suc m ↦ negsuc m ]

unfoldable pub time_to_iso8601 : Time → Bytes
unfolding padded padded_int hours
time_to_iso8601 t =
    let tz =
      if text_eq t.zone (codes "UTC")
      then codes "Z"
      else padded_int 3 (hours t.offset) ++ codes "00" in
    padded 4 t.year
    ++ (b'-'
        ∷ (padded 2 t.month
            ++ (b'-'
                ∷ (padded 2 t.day
                    ++ (b'T'
                        ∷ (padded 2 t.hour
                            ++ (b'-'
                                ∷ (padded 2 t.minute
                                    ++ (b'-'
                                        ∷ (padded 2 t.second
                                            ++ (b'.' ∷ (padded 9 t.nanosecond ++ tz))))))))))))

unfoldable pub version_string : Version → Bytes
unfolding time_to_iso8601
version_string v = v.ver ++ (b' ' ∷ (v.runtime ++ (b' ' ∷ time_to_iso8601 v.timestamp)))

unfoldable pub with_commit : Version → Bytes → Bytes
unfolding version_string
with_commit v git_commit =
    let str = version_string v in
    if leb 8 (length git_commit) then str ++ (b' ' ∷ take 8 git_commit) else str
