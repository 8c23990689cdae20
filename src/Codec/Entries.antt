-- ===== src/Codec/Entries.antt =====
-- MarshalDBusMap and UnmarshalDBusMap undo one another.
use cxx_bus.Base.{
  ℕ, suc, ◌+◌, ◌%◌, ◌^◌, ◌<◌, ◌≡◌, refl, sym, ap, ◌∙◌, Bool, false, List, [], ◌∷◌, ◌++◌,
  append_assoc, append-nil, arith, length, length-append, Result, ok, err, ◌>>=◌, >>=-eq-ok, All,
  inr, ◌==◌,
}
use cxx_bus.Codec.Bytes.{Bytes, padding, apply_padding, skip_padding, le_bytes}
use cxx_bus.Codec.Fits.{IsRising}
use cxx_bus.Codec.Layout.{
  Grows, IsAlignment, Grows-bind_left, length-apply_padding, padding_eight, length-le_bytes,
}
use cxx_bus.Codec.Marshal.{
  marshal_fixed, marshal_elements, marshal_entry, marshal_entries, marshal_map,
}
use cxx_bus.Codec.Unmarshal.{unmarshal_entry, unmarshal_map}
use cxx_bus.Codec.Reading.{Reads, append-cancel}
use cxx_bus.Codec.Arrays.{IsCoded, elements_read, elements-Grows, elements-Appends}
use cxx_bus.Codec.Containers.{marshal_entry-Appends}
use cxx_bus.Codec.Appending.{marshal_elements-Appends}
use cxx_bus.Codec.Pairs.{two-Reads}
use cxx_bus.Codec.Header.{
  sized, front, length-front, length-sized, sized-front, read-sized, skip-sized,
}
use cxx_bus.Codec.Maps.{emplace_all_rising, AllBelow-nil, entries_of_elements}

bind-ok : {A : Type 0} (r : Result A) → (r >>= λ x. ok x) ≡ r
bind-ok (ok x) = refl
bind-ok (err e) = refl

bind-cong :
    {A B : Type 0} (r : Result A) (f g : A → Result B)
    → ((x : A) → f x ≡ g x)
    → (r >>= f) ≡ (r >>= g)
bind-cong (ok x) f g h = h x
bind-cong (err e) f g h = refl

eight : IsAlignment 8
eight = inr (inr (inr refl))

nonzero : (k : ℕ) → 0 < k → (k == 0) ≡ false
nonzero k h = ground arith

map_bytes :
    (k : ℕ) (b z : Bytes) → apply_padding (marshal_fixed 4 k b) 8 ++ z ≡ b ++ sized 8 (length b) k z
unfolding apply_padding marshal_fixed
map_bytes k b z = rw (length-append b (le_bytes 4 k), length-le_bytes 4 k) (simp append_assoc)

padding_aligned : (n : ℕ) → n % 8 ≡ 0 → padding n 8 ≡ 0
unfolding padding
padding_aligned n h = rw h

skip_aligned : (n : ℕ) → n % 8 ≡ 0 → n < 2 ^ 32 → skip_padding n 8 ≡ n
unfolding skip_padding
skip_aligned n h size = rw (padding_aligned n h) (omega arith)

-- The second padding of an empty map adds nothing.
empty_map_bytes :
    (b : Bytes)
    → apply_padding (apply_padding (marshal_fixed 4 0 b) 8) 8 ≡ b ++ sized 8 (length b) 0 []
empty_map_bytes b =
    let c = apply_padding (marshal_fixed 4 0 b) 8 in
    let aligned : length c % 8 ≡ 0 =
      rw (length-apply_padding (marshal_fixed 4 0 b) 8)
        (padding_eight (length (marshal_fixed 4 0 b))) in
    let once : apply_padding c 8 ≡ c =
      unfold apply_padding in rw (padding_aligned (length c) aligned) (append-nil c) in
    once ∙ sym (append-nil c) ∙ map_bytes 0 b []

module _ {A B : Type 0} (m : A → Bytes → Result Bytes) (n : B → Bytes → Result Bytes)
    (u : Bytes → ℕ → Result (A × ℕ)) (w : Bytes → ℕ → Result (B × ℕ)) (alignment : ℕ)
    (v : IsAlignment alignment) where
  -- The loop over the entries pads like that over the elements of an array.
  entries_as_elements :
      (e : A × B) (es : List (A × B)) (b : Bytes)
      → marshal_elements (marshal_entry m n alignment) 8 (e ∷ es) b
        ≡ (marshal_entry m n alignment e b >>= λ g. marshal_entries m n alignment es g)
  unfolding marshal_elements marshal_entries
  entries_as_elements e [] b = sym (bind-ok (marshal_entry m n alignment e b))
  entries_as_elements e (f ∷ es) b =
      bind-cong (marshal_entry m n alignment e b) _ _
        (λ g. entries_as_elements f es (apply_padding g 8))

  pub IsCodedEntry :
      (e : A × B)
      → IsCoded m u e.0
      → IsCoded n w e.1
      → IsCoded (marshal_entry m n alignment) (unmarshal_entry u w alignment) e
  unfolding marshal_entry unmarshal_entry
  IsCodedEntry (a, c) h k = (
    marshal_entry-Appends m n alignment v (a, c) h.0 k.0,
    Grows-bind_left (m a) (λ g. n c (apply_padding g alignment)) h.1
        (λ b r e.
          omega (arith, length-apply_padding b alignment, k.1 (apply_padding b alignment) r e)),
    two-Reads (m a) (n c) u w alignment a c h.0 k.0 h.2 k.2,
  )

  All-entries :
      (es : List (A × B))
      → All (λ e. IsCoded m u e.0 × IsCoded n w e.1) es
      → All (IsCoded (marshal_entry m n alignment) (unmarshal_entry u w alignment)) es
  All-entries [] h = tt
  All-entries (e ∷ es) h = (IsCodedEntry e h.0.0 h.0.1, All-entries es h.1)

  -- The bytes of a map that is not empty: its size, padding, and the entries as from the offset 0.
  marshal_map_inv :
      (e : A × B) (es : List (A × B)) (b r : Bytes)
      → All (λ e. IsCoded m u e.0 × IsCoded n w e.1) (e ∷ es)
      → marshal_map m n alignment (e ∷ es) b ≡ ok r
      → (z : Bytes) × (r ≡ b ++ sized 8 (length b) (length z % 2 ^ 32) z)
        × (0 < length z)
        × ((c : Bytes)
            → length c % 8 ≡ 0
            → marshal_elements (marshal_entry m n alignment) 8 (e ∷ es) c ≡ ok (c ++ z))
  unfolding marshal_map
  marshal_map_inv e es b r h eq =
      let coded = All-entries (e ∷ es) h in
      let (g, eg, others) = >>=-eq-ok (marshal_entry m n alignment e []) _ eq in
      let (z, ez, last) = >>=-eq-ok (marshal_entries m n alignment es g) _ others in
      let whole : marshal_elements (marshal_entry m n alignment) 8 (e ∷ es) [] ≡ ok z =
        entries_as_elements e es [] ∙ rw eg ez in
      let (y, ey, sy) =
        marshal_elements-Appends (marshal_entry m n alignment) 8 eight (e ∷ es)
          (elements-Appends _ (unmarshal_entry u w alignment) 8 (e ∷ es) coded) [] z whole in
      (
        z,
        cc (map_bytes (length z % 2 ^ 32) b z),
        elements-Grows (marshal_entry m n alignment) (unmarshal_entry u w alignment) 8 e es coded
            eight [] z whole,
        λ c k. rw ey (sy c k),
      )

  -- A map in the order of its keys, whose keys and values are read back, is read back itself.
  pub unmarshal_map-Reads :
      (less : A → A → Bool) (es : List (A × B))
      → All (λ e. IsCoded m u e.0 × IsCoded n w e.1) es
      → IsRising less es
      → Reads (marshal_map m n alignment es) (unmarshal_map u w alignment less) es
  unfolding unmarshal_map marshal_map
  unmarshal_map-Reads less [] h r b x rest e size =
      let whole : b ++ sized 8 (length b) 0 [] ≡ b ++ x = cc (empty_map_bytes b) in
      let ex : x ≡ sized 8 (length b) 0 [] = sym (append-cancel b _ _ whole) in
      let lx = length-sized 8 b 0 [] in
      let lf = length-front 8 b 0 in
      rw ex (
        rw
          (
            read-sized 8 b 0 [] rest (omega arith) (omega (arith, ap length ex)),
            skip-sized 8 b 0 (omega (arith, ap length ex)),
            skip_aligned (length (front 8 b 0)) (omega (arith, padding_eight (length b + 4)))
                (omega (arith, ap length ex)),
          )
          (ap (λ (q : ℕ). ok ([], q)) (omega arith)))
  unmarshal_map-Reads less (f ∷ fs) h r b x rest e size =
      let (z, ez, grows, sy) = marshal_map_inv f fs b (b ++ x) h e in
      let k = length z % 2 ^ 32 in
      let ex : x ≡ sized 8 (length b) k z = append-cancel b _ _ ez in
      let lx = length-sized 8 b k z in
      let lf = length-front 8 b k in
      let exact : k ≡ length z = omega (arith, ap length ex) in
      let marshals = sy (front 8 b k) (omega (arith, padding_eight (length b + 4))) in
      let entries =
        elements_read (marshal_entry m n alignment) (unmarshal_entry u w alignment) 8 (f ∷ fs)
          (All-entries (f ∷ fs) h) eight (suc k) k 0 (front 8 b k) z rest marshals (omega arith)
          (omega arith) (omega arith) (omega (arith, ap length ex)) in
      let filled =
        entries_of_elements u w alignment less (suc k) k 0 (length (front 8 b k)) _
          (front 8 b k ++ (z ++ rest)) [] (f ∷ fs) entries in
      rw ex (
        rw
          (
            read-sized 8 b k z rest (omega arith) (omega (arith, ap length ex)),
            nonzero k (omega arith),
            skip-sized 8 b k (omega (arith, ap length ex)),
            sized-front 8 b k z rest,
            filled,
            emplace_all_rising less [] (f ∷ fs) (AllBelow-nil less (f ∷ fs)) r,
          )
          (ap (λ (q : ℕ). ok (f ∷ fs, q)) (omega arith)))

  pub marshal_map-Grows :
      (es : List (A × B))
      → All (λ e. IsCoded m u e.0 × IsCoded n w e.1) es
      → Grows (marshal_map m n alignment es)
  unfolding marshal_map
  marshal_map-Grows [] h b r e =
      let er : b ++ sized 8 (length b) 0 [] ≡ r = cc (empty_map_bytes b) in
      omega (arith, ap length er, length-append b (sized 8 (length b) 0 []), length-sized 8 b 0 [])
  marshal_map-Grows (f ∷ fs) h b r e =
      let (z, er, _, _) = marshal_map_inv f fs b r h e in
      omega (
        arith,
        ap length er,
        length-append b (sized 8 (length b) (length z % 2 ^ 32) z),
        length-sized 8 b (length z % 2 ^ 32) z,
      )
