-- ===== src/Tests/Uploads.antt =====
-- Uploads side by side, and the headers of a download.
use aime.Base.{◌≡◌, refl, subst, ◌≤◌, false, Option, some, [], ◌∷◌, arith}
use aime.Base.Lists.{length, exists}
use aime.Base.Bytes.{Bytes, bytes}
use aime.Config.{value_or}
use aime.Store.Tests.{change}
use aime.Http.Backups.{file_headers}
use aime.Http.Uploads.{acquire_upload, parse_backup_meta, parse_backup_parent, taken}
use aime.Http.Slots.{
  Slots, request, Reachable, start, later, arrive, move, arrived, holding, uploading, advance, idle,
  Kept, CallTurns,
}
use aime.Http.SlotsKept.{Reachable-Kept, acquire_upload-Turns}
use aime.Http.Copied.{Compacts, file_headers-taken}
use aime.Tests.{world}

-- One slot, taken by account 7, whose upload streams.
abbrev streaming : Slots
streaming = record { taken = 1; busy = 7 ∷ []; requests = request 7 uploading ∷ [] }

streaming-Reachable : Reachable 2 streaming
unfolding arrived advance
streaming-Reachable = later (later start (arrive 7 idle refl)) (move [] [] (request 7 holding) 1 [])

Reachable-Kept_example : Kept 2 streaming
Reachable-Kept_example = Reachable-Kept 2 streaming streaming-Reachable

acquire_upload-Turns_example : CallTurns 2 7 world [] (acquire_upload 2 7 world)
acquire_upload-Turns_example = acquire_upload-Turns 2 7 world []

-- What compacts to itself.
abbrev compact : Bytes → Option Bytes
compact raw = some raw

some_inj : {a b : Bytes} → some a ≡ some b → a ≡ b
some_inj e = cc

compact-Compacts : Compacts compact
compact-Compacts = record {
  stable = λ raw out e. refl;
  shorter = λ raw out e. subst (λ o. length o ≤ length raw) (some_inj e) (omega arith);
  same_bytes = λ p raw out e h. subst (λ o. exists p o ≡ false) (some_inj e) h;
  object = refl;
}

file_headers-taken_example :
    (parse_backup_meta compact (file_headers change).meta_header ≡ taken (bytes "{}"))
    × (parse_backup_parent (value_or [] (file_headers change).parent_header) ≡ taken (some 1))
unfolding parse_backup_meta
file_headers-taken_example =
    file_headers-taken compact compact-Compacts change (bytes "{}") refl (omega arith, omega arith)
