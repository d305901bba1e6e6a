-- ===== src/Blobs/Removal.antt =====
-- deployables/backend/internal/blobs/blobs.go: what the removal of a file changes.
use aime.Base.{false, ◌||◌, ◌≡◌, ◌∙◌, refl, Bool-cases, arith}
use aime.Base.Lists.{exists}
use aime.Base.Member.{In, In-delete, delete-In, exists-none}
use aime.Base.Bytes.{Bytes}
use aime.Blobs.Disk.{Entry, Disk, is_at, is_under, os_remove}

pub os_remove-below :
    (p : Bytes) (d : Disk) (e : Entry) → In e (os_remove p d).1.entries → In e d.entries
unfolding os_remove
os_remove-below p d e i = ground (
  arith,
  In-delete (is_at p) e d.entries,
  Bool-cases (exists (is_at p) d.entries),
  Bool-cases (d.stuck p || exists (is_under p) d.entries),
)

pub os_remove-kept :
    (p : Bytes) (d : Disk) (e : Entry)
    → In e d.entries
    → is_at p e ≡ false
    → In e (os_remove p d).1.entries
unfolding os_remove
os_remove-kept p d e i n = ground (
  arith,
  delete-In (is_at p) e d.entries i n,
  Bool-cases (exists (is_at p) d.entries),
  Bool-cases (d.stuck p || exists (is_under p) d.entries),
)

pub os_remove-gone :
    (p : Bytes) (d : Disk)
    → d.stuck p ≡ false
    → exists (is_under p) d.entries ≡ false
    → (e : Entry) → In e (os_remove p d).1.entries
    → is_at p e ≡ false
unfolding os_remove
os_remove-gone p d free empty e i = ground (
  arith,
  In-delete (is_at p) e d.entries,
  Bool-cases (exists (is_at p) d.entries),
  exists-none (is_at p) e d.entries,
)

pub os_remove-stuck : (p q : Bytes) (d : Disk) → (os_remove p d).1.stuck q ≡ d.stuck q
unfolding os_remove
os_remove-stuck p q d = ground (
  arith,
  Bool-cases (exists (is_at p) d.entries),
  Bool-cases (d.stuck p || exists (is_under p) d.entries),
)

-- A change of the disk that only removes entries.
pub record Shrinks (d d' : Disk) : Type 0 where
  pub below : (e : Entry) → In e d'.entries → In e d.entries
  pub stuck : (p : Bytes) → d'.stuck p ≡ d.stuck p

pub Shrinks-refl : (d : Disk) → Shrinks d d
Shrinks-refl d = record { below = λ e i. i; stuck = λ p. refl }

pub os_remove-Shrinks : (p : Bytes) (d d' : Disk) → Shrinks (os_remove p d).1 d' → Shrinks d d'
os_remove-Shrinks p d d' s = record {
  below = λ e i. os_remove-below p d e (s.below e i);
  stuck = λ q. s.stuck q ∙ os_remove-stuck p q d;
}
