-- ===== src/Samples.antt =====
-- Sample data that the tests of several modules run on.
use file_sharing_system_with.Prelude.{
  ◌≡◌, refl, true, false, none, [], ◌∷◌, ◌++◌, Bytes, length, replicate, arith,
}
use file_sharing_system_with.Word.{Int32}
use file_sharing_system_with.GoMap.{has, lookup}
use file_sharing_system_with.Storage.Disk.{Disk, IsHealthy}
use file_sharing_system_with.Storage.Bloom.Add.{IsValid}
use file_sharing_system_with.Storage.Chunk.{has_chunk}
use file_sharing_system_with.Storage.Manager.{StorageManager, confirm_has_chunk}
use file_sharing_system_with.Storage.Manager.Tracking.{Tracked}

-- A stand-in for SHA-256: the sum is the first byte, 32 times.
abbrev pub toy_sum : Bytes → Bytes
toy_sum [] = replicate 32 0
toy_sum (b ∷ bs) = replicate 32 b

abbrev pub slash : Bytes → Bytes → Bytes
slash dir name = dir ++ b'/' ∷ name

abbrev pub manager : StorageManager
manager = record {
  store = record { base_dir = b'd' ∷ []; files = []; chunks = [] };
  bloom = record { bit_array = 0 ∷ 0 ∷ []; num_bits = 10; num_hashes = 2; item_count = 0 };
  peer_id = 1;
}

abbrev pub good_disk : Disk
good_disk = record { files = []; can_make = λ dir. true; fault = λ path. none }

pub good_disk-IsHealthy : IsHealthy good_disk
good_disk-IsHealthy = record { makes = λ dir. refl; writes = λ path. refl }

pub bloom-IsValid : IsValid manager.bloom
bloom-IsValid = record {
  bytes = omega arith;
  positive = omega arith;
  small = omega arith;
  room = omega arith;
}

no_chunk : (f : Bytes) (i : Int32) → confirm_has_chunk manager f i ≡ false
unfolding confirm_has_chunk has_chunk has lookup
no_chunk f i = refl

pub manager-Tracked : Tracked manager
manager-Tracked = record { seen = λ f i hi h. absurd (ground (arith, no_chunk f i)) }

abbrev pub file : Bytes
file = b'f' ∷ []

abbrev pub words : Bytes
words = b'h' ∷ b'i' ∷ []

pub toy_sum-size : (t : Bytes) → length (toy_sum t) ≡ 32
toy_sum-size [] = refl
toy_sum-size (b ∷ bs) = refl
