-- ===== src/Slice/Header.antt =====
-- The header at the end of a slice's file: what `flush` writes there, the constructor over the file
-- reads.
use tyrdbs.Prelude.{
  ℕ, ltb, false, ◌≤◌, ◌+◌, ◌-◌, ◌%◌, ◌^◌, ◌<◌, ◌≡◌, refl, sym, ap, ◌∙◌, inl, inr, true, some, List,
  ◌++◌, append_assoc, arith, ◌==◌, ==_iff, length, length-append, length-replicate, replicate, take,
  drop, Bool-cases,
}
use tyrdbs.Prelude.Cuts.{drop-append_exact}
use tyrdbs.Prelude.Memory.{to_bytes, of_bytes, of_bytes-to_bytes2}
use tyrdbs.Node.{Node}
use tyrdbs.Location.{invalid_size}
use tyrdbs.SliceWriter.Store.{SliceFile, write_bytes}
use tyrdbs.SliceWriter.Entries.{
  SliceWriter, storage_page_size, add_padding, header_bytes, end_file, link_at, last_location,
}
use tyrdbs.Slice.{Slice, commit, open_slice}
use tyrdbs.Slice.Splitting.{of_bytes-to_bytes8}

aligned : (f : SliceFile) → length (add_padding f).file % storage_page_size ≡ 0
unfolding add_padding write_bytes
aligned f = elim (Bool-cases (length f.file % storage_page_size == 0)) [
  | inl e ↦ rw e ((==_iff (length f.file % storage_page_size) 0).0 e)
  | inr e ↦ rw e (
      let n : ℕ = storage_page_size - length f.file % storage_page_size in
      omega (arith, length-append f.file (replicate n 0), length-replicate {A = ℕ} n 0))
]

longer : (f : SliceFile) → length f.file ≤ length (add_padding f).file
unfolding add_padding
longer f = elim (Bool-cases (length f.file % storage_page_size == 0)) [
  | inl e ↦ rw e (omega arith)
  | inr e ↦ rw e (
      let n : ℕ = storage_page_size - length f.file % storage_page_size in
      omega (arith, length-append f.file (replicate n 0)))
]

-- a header behind whole pages is padded to a page
padded :
    (pre header : List ℕ) (f : SliceFile)
    → length pre % storage_page_size ≡ 0
    → length header ≡ 58
    → f.file ≡ pre ++ header
    → (add_padding f).file ≡ pre ++ (header ++ replicate 4038 0)
unfolding add_padding write_bytes
padded pre header f whole size e =
    let total : length f.file ≡ length pre + 58 =
      ap length e ∙ length-append pre header ∙ ap (λ n. length pre + n) size in
    let used : length f.file % storage_page_size ≡ 58 = omega (arith, total, whole) in
    rw used (ap (λ t. t ++ replicate 4038 0) e ∙ append_assoc pre header (replicate 4038 0))

last_page :
    (pre page : List ℕ)
    → length page ≡ storage_page_size
    → drop (length (pre ++ page) - storage_page_size) (pre ++ page) ≡ page
last_page pre page h = drop-append_exact _ pre page (omega (arith, length-append pre page, h))

length-header_bytes : (w : SliceWriter) (f : SliceFile) → length (header_bytes w f) ≡ 58
unfolding header_bytes
length-header_bytes w f = refl

abbrev magic : ℕ
magic = 0x3130306264727974

-- the fields of a page that begins with a header
module _ (w : SliceWriter) (f : SliceFile) (zeros : List ℕ) where
  abbrev page : List ℕ
  page = header_bytes w f ++ zeros

  signature_field : of_bytes (take 8 page) ≡ magic
  unfolding header_bytes
  signature_field = of_bytes-to_bytes8 magic (omega arith)

  root_field : w.root < 2 ^ 64 → of_bytes (take 8 (drop 8 page)) ≡ w.root
  unfolding header_bytes
  root_field h = of_bytes-to_bytes8 w.root h

  first_field : f.first_node_size < 2 ^ 16 → of_bytes (take 2 (drop 16 page)) ≡ f.first_node_size
  unfolding header_bytes
  first_field h = of_bytes-to_bytes2 f.first_node_size h

  count_field : w.entry_count < 2 ^ 64 → of_bytes (take 8 (drop 18 page)) ≡ w.entry_count
  unfolding header_bytes
  count_field h = of_bytes-to_bytes8 w.entry_count h

  -- what the constructor makes of a file that ends with the page
  open_slice-page :
      (bytes : List ℕ)
      → length bytes < 2 ^ 32
      → length bytes % storage_page_size ≡ 0
      → storage_page_size < length bytes
      → drop (length bytes - storage_page_size) bytes ≡ page
      → w.root < 2 ^ 64
      → w.entry_count < 2 ^ 64
      → f.first_node_size < 2 ^ 16
      → open_slice bytes
        ≡ some (record {
          slice_bytes = bytes;
          slice_key_count = w.entry_count;
          slice_root = w.root;
          slice_first_node_size = f.first_node_size;
        })
  unfolding open_slice
  open_slice-page bytes narrow whole large at_page root count first =
      let size : length bytes % 2 ^ 32 ≡ length bytes = omega (arith, narrow) in
      let aligned_size : (length bytes % storage_page_size == 0) ≡ true =
        (==_iff (length bytes % storage_page_size) 0).1 whole in
      let large_size : ltb storage_page_size (length bytes) ≡ true = ground (arith, large) in
      let signed : (of_bytes (take 8 page) == magic) ≡ true =
        (==_iff (of_bytes (take 8 page)) magic).1 signature_field in
      rw
        (
          size,
          aligned_size,
          large_size,
          at_page,
          signed,
          root_field root,
          first_field first,
          count_field count,
        )
        refl

add_padding-first : (f : SliceFile) → (add_padding f).first_node_size ≡ f.first_node_size
unfolding add_padding write_bytes
add_padding-first f = elim (Bool-cases (length f.file % storage_page_size == 0)) [
  | inl e ↦ rw e refl
  | inr e ↦ rw e refl
]

end_file-first :
    (w : SliceWriter) (last_data_node : ℕ) (f : SliceFile)
    → (end_file w last_data_node f).first_node_size ≡ f.first_node_size
unfolding end_file write_bytes
end_file-first w last_data_node f =
    let ended : List (ℕ × Node) =
      link_at (last_location f.cached) invalid_size
        (link_at last_data_node invalid_size f.cached) in
    let g : SliceFile = write_bytes (to_bytes 2 invalid_size) (record f { cached = ended }) in
    add_padding-first (write_bytes (header_bytes w (add_padding g)) (add_padding g))
    ∙ add_padding-first g

-- When the file that `flush` ends has less than 2 ^ 32 bytes, the writer has a root, and the root, the
-- number of its entries and the size of the first node of the file fit their fields of the header:
-- that file, whatever it had before, opens as the very slice that the writer commits with it, with its
-- root, number of keys and size of the first node.
pub open_slice-end_file :
    (w : SliceWriter) (last_data_node : ℕ) (f : SliceFile)
    → length (end_file w last_data_node f).file < 2 ^ 32
    → w.root < 0xffff_ffff_ffff_ffff
    → w.entry_count < 2 ^ 64
    → f.first_node_size < 2 ^ 16
    → (s : Slice) × (commit (record w { slice = end_file w last_data_node f }) ≡ some s)
      × (open_slice (end_file w last_data_node f).file ≡ some s)
unfolding end_file commit write_bytes
open_slice-end_file w last_data_node f narrow root count first =
    let ended : List (ℕ × Node) =
      link_at (last_location f.cached) invalid_size
        (link_at last_data_node invalid_size f.cached) in
    let f1 : SliceFile =
      add_padding (write_bytes (to_bytes 2 invalid_size) (record f { cached = ended })) in
    let g : SliceFile = write_bytes (header_bytes w f1) f1 in
    let zeros : List ℕ = replicate 4038 0 in
    let page1 : List ℕ = header_bytes w f1 ++ zeros in
    let file : (add_padding g).file ≡ f1.file ++ page1 =
      padded f1.file (header_bytes w f1) g
        (aligned (write_bytes (to_bytes 2 invalid_size) (record f { cached = ended })))
        (length-header_bytes w f1) refl in
    let a_page : length page1 ≡ storage_page_size = omega (
      arith,
      length-append (header_bytes w f1) zeros,
      length-header_bytes w f1,
      length-replicate {A = ℕ} 4038 0,
    ) in
    let at_page : drop (length (add_padding g).file - storage_page_size) (add_padding g).file
        ≡ page1 =
      ap (λ t. drop (length t - storage_page_size) t) file ∙ last_page f1.file page1 a_page in
    let same : (add_padding g).first_node_size ≡ f1.first_node_size = add_padding-first g in
    let before : SliceFile = write_bytes (to_bytes 2 invalid_size) (record f { cached = ended }) in
    let total : length (add_padding g).file ≡ length f1.file + storage_page_size =
      ap length file ∙ length-append f1.file page1 ∙ ap (λ n. length f1.file + n) a_page in
    let mark : 2 ≤ length f1.file =
      omega (arith, longer before, length-append f.file (to_bytes 2 invalid_size)) in
    let rooted : (w.root == 0xffff_ffff_ffff_ffff) ≡ false = ground (arith, root) in
    let slice_with : ℕ → Slice = λ n. record {
      slice_bytes = (add_padding g).file;
      slice_key_count = w.entry_count;
      slice_root = w.root;
      slice_first_node_size = n;
    } in
    (
      slice_with (add_padding g).first_node_size,
      rw rooted refl,
      open_slice-page w f1 zeros (add_padding g).file narrow (omega (arith, total, aligned before))
            (omega (arith, total, aligned before, mark)) at_page (omega (arith, root)) count
            (omega (arith, first, add_padding-first before))
          ∙ ap (λ n. some (slice_with n)) (sym same),
    )
