-- ===== src/Slice/Accepting.antt =====
-- Entries that the check lets through are added whole, none refused.
use tyrdbs.Prelude.{
  ℕ, ◌+◌, ◌/◌, ◌*◌, ◌^◌, ◌≤◌, ◌<◌, ◌≡◌, refl, sym, ap, ◌∙◌, ◌⊎◌, inl, inr, Bool, true, false, ◌&&◌,
  Option, some, List, [], ◌∷◌, ◌++◌, append_assoc, append-nil, map, arith, ◌==◌, length, Every,
  Bool-cases, if◌then◌else◌,
}
use mathlib.Core.Path.{subst}
use tyrdbs.Node.{page_size}
use tyrdbs.NodeWriter.{node_writer}
use tyrdbs.NodeWriter.Layout.{Item}
use tyrdbs.NodeWriter.RoundTrip.{IsCodec}
use tyrdbs.Iterator.{Part}
use tyrdbs.SliceWriter.{SliceEntry, LastEntry, no_entry, new_key, check, remember}
use tyrdbs.SliceWriter.Order.{IsAllowed, TakesAll, check-IsAllowed}
use tyrdbs.SliceWriter.Index.{index_level}
use tyrdbs.SliceWriter.Entries.{
  SliceWriter, slice_writer, Result, ok, file_size_limit_reached, unless_limit, add_loop, add_entry,
  add_parts,
}
use tyrdbs.Slice.Kept.{fresh-Kept, node_writer-IsFresh}
use tyrdbs.Slice.Writing.{IsWriting}
use tyrdbs.Slice.Splitting.{IsCut, add_loop-Added}

-- what `add` gets of a part
abbrev pub entry_of : Part → SliceEntry
entry_of p = record { key = p.key; value = p.value; eor = p.eor; deleted = p.deleted }

-- An eighth of the value fits into a node with the key, and the index is below `max_idx`.
pub record Fits (p : Part) : Type 0 where
  pub fits_room : 14 + length p.key + length p.value / 8 ≤ 8126
  pub fits_idx : p.idx < 2 ^ 48

pub unless_limit-reached :
    (w : SliceWriter) → w.slice.limit_reached ≡ true → unless_limit w ≡ file_size_limit_reached
unless_limit-reached w e = rw e refl

pub unless_limit-below : (w : SliceWriter) → w.slice.limit_reached ≡ false → unless_limit w ≡ ok w
unless_limit-below w e = rw e refl

-- The parts are the entries, each of them cut, one behind the other.
abbrev pub IsCuts : List Part → List Part → Type 0
IsCuts [] qs = qs ≡ []
IsCuts (e ∷ es) qs =
    (front : List Part) × (back : List Part) × (qs ≡ front ++ back) × IsCut e front × IsCuts es back

-- the last entry after these
abbrev pub last_after : LastEntry → List Part → LastEntry
last_after w [] = w
last_after w (p ∷ ps) = last_after (remember (entry_of p)) ps

module _ (compress : List ℕ → ℕ → Option (List ℕ)) (decompress : List ℕ → Option (List ℕ))
    (crc32c : List ℕ → ℕ) (codec : IsCodec compress decompress page_size) where
  abbrev Writing : SliceWriter → List Item → List Part → Type 0
  Writing = IsWriting compress decompress crc32c codec

  pub slice_writer-Writing : Writing slice_writer [] []
  unfolding slice_writer no_entry index_level
  slice_writer-Writing = record {
    leaf_kept = fresh-Kept node_writer node_writer-IsFresh;
    stored_parts = [];
    made = inl (refl, refl);
    index_kept = (
      record {
        level_items = [];
        level_kept = fresh-Kept node_writer node_writer-IsFresh;
        short_first = omega arith;
        short_last = omega arith;
      },
      tt,
    );
    some_level = omega arith;
    short_first = omega arith;
    short_last = omega arith;
    all_parts = refl;
  }

  -- the writer that the loop starts with
  abbrev opening : SliceEntry → Bool → SliceWriter → SliceWriter
  opening e is_new w =
      if is_new && (length w.first_key == 0) then record w { first_key = e.key } else w

  opening-Writing :
      (e : SliceEntry) (is_new : Bool) (w : SliceWriter) (items : List Item) (ps : List Part)
      → length e.key < 1024
      → Writing w items ps
      → Writing (opening e is_new w) items ps × ((opening e is_new w).entry_count ≡ w.entry_count)
  opening-Writing e is_new w items ps short k =
      elim (Bool-cases (is_new && (length w.first_key == 0))) [
        | inl first ↦ rw first (
          record {
            leaf_kept = k.leaf_kept;
            stored_parts = k.stored_parts;
            made = k.made;
            index_kept = k.index_kept;
            some_level = k.some_level;
            short_first = short;
            short_last = k.short_last;
            all_parts = k.all_parts;
          },
          refl,
        )
        | inr later ↦ rw later (k, refl)
      ]

  add_entry-ok :
      (e : SliceEntry) (idx : ℕ) (is_new : Bool) (w w2 : SliceWriter)
      → check e w.last ≡ new_key is_new
      → add_loop compress crc32c
          (2 * length e.value + 2)
          e.key
          e.value
          e.eor
          e.deleted
          idx
          is_new
          (opening e is_new w)
        ≡ some w2
      → add_entry compress crc32c e idx w
        ≡ unless_limit (record w2 { last = remember e; entry_count = w2.entry_count + 1 })
  unfolding add_entry
  add_entry-ok e idx is_new w w2 checked looped = rw (add_entry, checked, looped) refl

  pub record EntryAdded (w : SliceWriter) (ps : List Part) (p : Part) (result : Result SliceWriter)
      : Type 0 where
    pub entry_writer : SliceWriter
    pub entry_items : List Item
    pub entry_pieces : List Part
    pub entry_answer : result ≡ unless_limit entry_writer
    pub entry_writing : Writing entry_writer entry_items (ps ++ entry_pieces)
    pub entry_some : 0 < length entry_items
    pub entry_cut : IsCut p entry_pieces
    pub entry_last : entry_writer.last ≡ remember (entry_of p)
    pub entry_number : entry_writer.entry_count ≡ w.entry_count + 1

  pub add_entry-EntryAdded :
      (p : Part) (is_new : Bool) (w : SliceWriter) (items : List Item) (ps : List Part)
      → check (entry_of p) w.last ≡ new_key is_new
      → Fits p
      → Writing w items ps
      → EntryAdded w ps p (add_entry compress crc32c (entry_of p) p.idx w)
  unfolding remember
  add_entry-EntryAdded p is_new w items ps checked fits k =
      let allowed : IsAllowed (entry_of p) w.last =
        check-IsAllowed (entry_of p) w.last is_new checked in
      let short : length p.key < 1024 = omega (arith, allowed.short_key) in
      let (k1, count) = opening-Writing (entry_of p) is_new w items ps short k in
      let a =
        add_loop-Added compress decompress crc32c codec p.key p.eor p.deleted p.idx is_new short
          (omega (arith, fits.fits_idx)) (2 * length p.value + 2) p.value
          (opening (entry_of p) is_new w) items ps fits.fits_room (omega arith) k1 in
      let k2 = a.added_writing in
      record {
        entry_writer = record a.added_writer {
          last = remember (entry_of p);
          entry_count = a.added_writer.entry_count + 1;
        };
        entry_items = a.added_items;
        entry_pieces = a.added_pieces;
        entry_answer =
            add_entry-ok (entry_of p) p.idx is_new w a.added_writer checked a.added_answer;
        entry_writing = record {
          leaf_kept = k2.leaf_kept;
          stored_parts = k2.stored_parts;
          made = k2.made;
          index_kept = k2.index_kept;
          some_level = k2.some_level;
          short_first = k2.short_first;
          short_last = short;
          all_parts = k2.all_parts;
        };
        entry_some = a.added_some;
        entry_cut = a.added_cut;
        entry_last = refl;
        entry_number = ap (λ n. n + 1) (a.added_count ∙ count);
      }

  pub record PartsAdded (w : SliceWriter) (start_items : List Item) (ps es : List Part)
      (result : Result SliceWriter) : Type 0 where
    pub parts_writer : SliceWriter
    pub parts_items : List Item
    pub parts_pieces : List Part
    pub parts_answer : result ≡ ok parts_writer
    pub parts_writing : Writing parts_writer parts_items (ps ++ parts_pieces)
    pub parts_cut : IsCuts es parts_pieces
    pub parts_last : parts_writer.last ≡ last_after w.last es
    pub parts_number : parts_writer.entry_count ≡ w.entry_count + length es
    pub parts_some : 0 < length start_items + length es → 0 < length parts_items

  add_parts-step :
      (p : Part) (es : List Part) (w w' : SliceWriter)
      → add_entry compress crc32c (entry_of p) p.idx w ≡ ok w'
      → add_parts compress crc32c false (p ∷ es) w ≡ add_parts compress crc32c false es w'
  unfolding add_parts
  add_parts-step p es w w' e = rw (add_parts, e) refl

  add_parts-limit :
      (p : Part) (es : List Part) (w : SliceWriter)
      → add_entry compress crc32c (entry_of p) p.idx w ≡ file_size_limit_reached
      → add_parts compress crc32c false (p ∷ es) w ≡ file_size_limit_reached
  unfolding add_parts
  add_parts-limit p es w e = rw (add_parts, e) refl

  -- The check lets all of them through, and so `add` of an iterator that gives them, no part left out,
  -- reaches the limit of the file or returns a writer that has them all, each cut to as many parts as
  -- it took.
  pub add_parts-PartsAdded :
      (es : List Part) (w : SliceWriter) (items : List Item) (ps : List Part)
      → TakesAll w.last (map entry_of es)
      → Every Fits es
      → Writing w items ps
      → (add_parts compress crc32c false es w ≡ file_size_limit_reached)
        ⊎ PartsAdded w items ps es (add_parts compress crc32c false es w)
  unfolding add_parts
  add_parts-PartsAdded [] w items ps all fits k = inr (record {
    parts_writer = w;
    parts_items = items;
    parts_pieces = [];
    parts_answer = refl;
    parts_writing = subst (Writing w items) (sym (append-nil ps)) k;
    parts_cut = refl;
    parts_last = refl;
    parts_number = omega arith;
    parts_some = λ h. omega (arith, h);
  })
  add_parts-PartsAdded (p ∷ es) w items ps ((is_new, checked), all) (fit, fits) k =
      let a = add_entry-EntryAdded p is_new w items ps checked fit k in
      elim (Bool-cases a.entry_writer.slice.limit_reached) [
        | inl reached ↦
            inl (
              add_parts-limit p es w (a.entry_answer ∙ unless_limit-reached a.entry_writer reached))
        | inr below ↦
            let step : add_parts compress crc32c false (p ∷ es) w
                ≡ add_parts compress crc32c false es a.entry_writer =
              add_parts-step p es w a.entry_writer
                (a.entry_answer ∙ unless_limit-below a.entry_writer below) in
            elim (add_parts-PartsAdded es a.entry_writer a.entry_items (ps ++ a.entry_pieces)
              (subst (λ l. TakesAll l (map entry_of es)) (sym a.entry_last) all) fits
              a.entry_writing) [
                | inl reached ↦ inl (step ∙ reached)
                | inr rest ↦ inr (record {
                  parts_writer = rest.parts_writer;
                  parts_items = rest.parts_items;
                  parts_pieces = a.entry_pieces ++ rest.parts_pieces;
                  parts_answer = step ∙ rest.parts_answer;
                  parts_writing =
                      subst (Writing rest.parts_writer rest.parts_items)
                        (append_assoc ps a.entry_pieces rest.parts_pieces) rest.parts_writing;
                  parts_cut =
                      (a.entry_pieces, rest.parts_pieces, refl, a.entry_cut, rest.parts_cut);
                  parts_last = rest.parts_last ∙ ap (λ l. last_after l es) a.entry_last;
                  parts_number = omega (arith, rest.parts_number, a.entry_number);
                  parts_some = λ _. rest.parts_some (omega (arith, a.entry_some));
                })
              ]
      ]
