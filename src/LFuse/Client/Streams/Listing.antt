-- ===== src/LFuse/Client/Streams/Listing.antt =====
-- The loop of xmp_getdir goes one entry too far.
use m3sec.Common.{ℕ, List, [], ◌∷◌, ℤ, pos, Bytes, ◌≡◌, refl}
use m3sec.Common.Exec.{Exec, ok, running, ◌>>=◌}
use m3sec.LFuse.Host.{Dirent}
use m3sec.LFuse.Remote.{Remote}
use m3sec.LFuse.Client.Streams.{give_entries}

module _ (r : Remote) where
  -- If the filler takes every entry, the loop of xmp_getdir reads behind the last entry, whatever the
  -- directory holds; the world is then as the calls of the filler left it.
  pub give_entries-overruns :
      (filler : Bytes → ℕ → Exec r.World ℤ) (des : List Dirent) (w : r.World)
      → ((name : Bytes) (type : ℕ) (w : r.World) → (filler name type w).0 ≡ ok (pos 0))
      → (give_entries r filler des w).0 ≡ running
  unfolding give_entries ◌>>=◌
  give_entries-overruns filler [] w takes = refl
  give_entries-overruns filler (de ∷ des) w takes =
      rw
        (
          takes de.name de.type w,
          give_entries-overruns filler des (filler de.name de.type w).1 takes,
        )
        refl
