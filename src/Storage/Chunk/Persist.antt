-- ===== src/Storage/Chunk/Persist.antt =====
-- What the loop of `SplitFile` leaves on the disk, by `persistChunk`. filepath.Join is `join`.
use file_sharing_system_with.Prelude.{
  le_cases, ℕ, zero, suc, ◌+◌, ◌-◌, ◌^◌, ◌≤◌, ◌<◌, ◌≡◌, ◌≢◌, inl, inr, Bool, Option, [], ◌∷◌, drop,
  if◌then◌else◌, true, some, Bytes, bytes_eq, bytes_beq, bytes_beq_iff, All, ltb, arith, Bool-cases,
  ◌∙◌, ap, sym,
}
use file_sharing_system_with.Word.{Int32}
use file_sharing_system_with.GoMap.Laws.{lookup-insert}
use file_sharing_system_with.Fmt.{decimal, format_int32}
use file_sharing_system_with.Fmt.Inverse.{IsDigit, decimal-IsDigit}
use file_sharing_system_with.Fmt.Split.{format_int32-injective}
use file_sharing_system_with.Storage.Disk.{Disk, mkdir_all, write_file, read_file}
use file_sharing_system_with.Storage.Chunk.{
  ChunkStore, chunk_name, chunk_data, chunk_path, put_chunk, persist_chunk, Splitting, split_round,
  split_loop,
}
use file_sharing_system_with.Storage.Chunk.Loop.{split_loop-first}

-- Neither a separator nor a dot.
abbrev IsPlainByte : ℕ → Type 0
IsPlainByte b = (b ≢ b'/') × (b ≢ b'.')

-- A name that filepath.Clean leaves as it is.
abbrev pub IsPlain : Bytes → Type 0
IsPlain name = All IsPlainByte name

-- What the store relies on of filepath.Join: it joins a directory and a name with a separator, so in
-- one directory different plain names make different paths.
pub record IsJoining (join : Bytes → Bytes → Bytes) : Type 0 where
  pub names : (dir a b : Bytes) → IsPlain a → IsPlain b → join dir a ≡ join dir b → a ≡ b

digits-IsPlain : (ds : Bytes) → All IsDigit ds → IsPlain ds
digits-IsPlain [] all = tt
digits-IsPlain (d ∷ ds) (d_digit, all) =
    ((λ e. absurd (omega arith), λ e. absurd (omega arith)), digits-IsPlain ds all)

format_int32-IsPlain : (i : Int32) → IsPlain (format_int32 i)
unfolding format_int32
format_int32-IsPlain i = elim (Bool-cases (ltb i (2 ^ 31))) [
  | inl pos ↦ rw pos (digits-IsPlain (decimal i) (decimal-IsDigit i))
  | inr neg ↦ rw neg (
    (λ e. absurd (omega arith), λ e. absurd (omega arith)),
    digits-IsPlain (decimal (2 ^ 32 - i)) (decimal-IsDigit (2 ^ 32 - i)),
  )
]

letter-IsPlain : (b : ℕ) → 48 < b → IsPlainByte b
letter-IsPlain b h = (λ e. absurd (omega arith), λ e. absurd (omega arith))

pub chunk_name-IsPlain : (i : Int32) → IsPlain (chunk_name i)
unfolding chunk_name
chunk_name-IsPlain i = (
  letter-IsPlain b'c' (omega arith),
  (
    letter-IsPlain b'h' (omega arith),
    (
      letter-IsPlain b'u' (omega arith),
      (
        letter-IsPlain b'n' (omega arith),
        (
          letter-IsPlain b'k' (omega arith),
          (letter-IsPlain b'_' (omega arith), format_int32-IsPlain i),
        ),
      ),
    ),
  ),
)

chunk_name-injective : (i j : Int32) → i < 2 ^ 32 → j < 2 ^ 32 → chunk_name i ≡ chunk_name j → i ≡ j
unfolding chunk_name
chunk_name-injective i j hi hj e = format_int32-injective i j hi hj (ap (drop 6) e)

module _ (sha256 : Bytes → Bytes) (join : Bytes → Bytes → Bytes) (joining : IsJoining join)
    (file_id text : Bytes) where
  -- The content of chunk `j` on the disk, below the directory of a store.
  abbrev pub on_disk : ChunkStore → Disk → ℕ → Option Bytes
  on_disk cs disk j = read_file (chunk_path sha256 join cs file_id j) disk

  chunk_path-ne :
      (cs : ChunkStore) (i j : Int32)
      → i < 2 ^ 32
      → j < 2 ^ 32
      → i ≢ j
      → chunk_path sha256 join cs file_id i ≢ chunk_path sha256 join cs file_id j
  unfolding chunk_path
  chunk_path-ne cs i j hi hj ne e = ne (
      chunk_name-injective i j hi hj (
        joining.names (join cs.base_dir file_id) (chunk_name i) (chunk_name j)
          (chunk_name-IsPlain i) (chunk_name-IsPlain j) e))

  -- A write that succeeds puts the content at the path, and leaves every other path alone.
  persist_chunk-reads :
      (cs : ChunkStore) (i : Int32) (content : Bytes) (disk : Disk) (path : Bytes)
      → (persist_chunk sha256 join cs file_id i content disk).1 ≡ true
      → read_file path (persist_chunk sha256 join cs file_id i content disk).0 ≡ (
          if bytes_beq (chunk_path sha256 join cs file_id i) path
          then some content
          else read_file path disk)
  unfolding persist_chunk mkdir_all write_file read_file
  persist_chunk-reads cs i content disk path done =
      ground
        (arith, done, lookup-insert (chunk_path sha256 join cs file_id i) path content disk.files)

  split_round-on_disk :
      (i : ℕ) (s : Splitting)
      → (split_round sha256 join file_id text i s).1 ≡ true
      → let s' = (split_round sha256 join file_id text i s).0 in
        on_disk s'.store s'.disk i ≡ some (chunk_data i text)
  unfolding split_round put_chunk chunk_path
  split_round-on_disk i s done =
      let store = put_chunk s.store file_id i (chunk_data i text) in
      let path = chunk_path sha256 join store file_id i in
      ground (
        arith,
        persist_chunk-reads store i (chunk_data i text) s.disk path done,
        bytes_beq_iff path path,
      )

  split_round-on_disk_keeps :
      (i j : ℕ) (s : Splitting)
      → i < 2 ^ 32
      → j < 2 ^ 32
      → i ≢ j
      → (split_round sha256 join file_id text i s).1 ≡ true
      → let s' = (split_round sha256 join file_id text i s).0 in
        on_disk s'.store s'.disk j ≡ on_disk s.store s.disk j
  unfolding split_round put_chunk chunk_path
  split_round-on_disk_keeps i j s hi hj ne done =
      let store = put_chunk s.store file_id i (chunk_data i text) in
      let path = chunk_path sha256 join store file_id i in
      let other = chunk_path sha256 join store file_id j in
      ground (
        arith,
        persist_chunk-reads store i (chunk_data i text) s.disk other done,
        bytes_beq_iff path other,
        chunk_path-ne store i j hi hj ne,
      )

  -- The disk holds the chunks of the rounds from `i` on.
  abbrev pub Persisted : ChunkStore → Disk → ℕ → ℕ → Type 0
  Persisted cs disk zero i = Unit {0}
  Persisted cs disk (suc n) i =
      (on_disk cs disk i ≡ some (chunk_data i text)) × Persisted cs disk n (i + 1)

  split_loop-on_disk_keeps :
      (n i j : ℕ) (s s' : Splitting)
      → j < i
      → i + n ≤ 2 ^ 32
      → split_loop sha256 join file_id text n i s ≡ (s', true)
      → on_disk s'.store s'.disk j ≡ on_disk s.store s.disk j
  unfolding split_loop
  split_loop-on_disk_keeps zero i j s s' h l run =
      ap (λ (t : Splitting × Bool). on_disk t.0.store t.0.disk j) (sym run)
  split_loop-on_disk_keeps (suc n) i j s s' h l run =
      let r = (split_round sha256 join file_id text i s).0 in
      let (done, later) = split_loop-first sha256 join file_id text n i s s' run in
      split_loop-on_disk_keeps n (i + 1) j r s' (omega arith) (omega arith) later
      ∙ split_round-on_disk_keeps i j s (omega arith) (omega arith) (omega arith) done

  pub split_loop-Persisted :
      (n i : ℕ) (s s' : Splitting)
      → i + n ≤ 2 ^ 32
      → split_loop sha256 join file_id text n i s ≡ (s', true)
      → Persisted s'.store s'.disk n i
  split_loop-Persisted zero i s s' l run = tt
  split_loop-Persisted (suc n) i s s' l run =
      let r = (split_round sha256 join file_id text i s).0 in
      let (done, later) = split_loop-first sha256 join file_id text n i s s' run in
      (
        split_loop-on_disk_keeps n (i + 1) i r s' (omega arith) (omega arith) later
            ∙ split_round-on_disk i s done,
        split_loop-Persisted n (i + 1) r s' (omega arith) later,
      )

  pub Persisted-read :
      (cs : ChunkStore) (disk : Disk) (n i j : ℕ)
      → Persisted cs disk n i
      → i ≤ j
      → j < i + n
      → on_disk cs disk j ≡ some (chunk_data j text)
  Persisted-read cs disk zero i j p lo hi = absurd (omega arith)
  Persisted-read cs disk (suc n) i j p lo hi = elim (le_cases i j lo) [
    | inl here ↦ rw (← here) p.0
    | inr later ↦ Persisted-read cs disk n (i + 1) j p.1 later (omega arith)
  ]
