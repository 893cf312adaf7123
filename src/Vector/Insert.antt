-- ===== src/Vector/Insert.antt =====
-- `vector_insert` and `vector_delete` with room to spare: list insertion and list removal.
use libcutils.Base.{
  ℕ, ◌+◌, ◌-◌, ◌≤◌, ◌<◌, ◌≡◌, sym, ap, ap₂, ◌∙◌, [], ◌∷◌, ◌++◌, true, false, ◌&&◌, some, arith,
  length, take, drop, ◌==◌, ltb,
}
use libcutils.Base.Memory.{
  slice, overwrite, store-some, length-slice, length-overwrite, slice-append,
  slice-overwrite_before, slice-overwrite_self, overwrite-overwrite_right, take-slice, drop-slice,
}
use libcutils.Base.Words.{add32, sub32}
use libcutils.Vector.{Vector, copy_backward, copy_forward, copy, insert, delete}
use libcutils.Vector.Contents.{contents, IsValid}
use libcutils.Vector.Copy.{backward_loop_lem, forward_loop_lem}

module _ {ℓ} {A : Type ℓ} (v : Vector A) (k : IsValid v) (it : ℕ) where
  open v use {vector_head as head, end as end, capacity as cap}

  copy_up :
      it ≤ end
      → end < cap
      → copy v (add32 it 1) it (sub32 end it)
        ≡ some (record v { vector_head = overwrite head (it + 1) (slice head it (end - it)) })
  unfolding copy copy_backward
  copy_up h room =
      let t : add32 it 1 ≡ it + 1 = omega arith in
      let c : sub32 end it ≡ end - it = omega arith in
      let n : sub32 (add32 (it + 1) (end - it)) (add32 it (end - it)) ≡ 1 = omega arith in
      let f : add32 it (end - it) ≡ it + (end - it) = omega arith in
      let g : add32 (it + 1) (end - it) ≡ it + 1 + (end - it) = omega arith in
      let le : ltb (it + 1) it ≡ false = ground arith in
      ground (
        arith,
        t,
        c,
        n,
        f,
        g,
        le,
        backward_loop_lem (end - it) (end - it) head it (add32 (it + 1) (end - it))
            (add32 it (end - it)),
      )

  -- The elements from the position on move up by one, and the new one stands at the position.
  insert-some :
      (x : A)
      → it ≤ end
      → end < cap
      → insert v it x
        ≡ some (record v {
          vector_head = overwrite head it (x ∷ slice head it (end - it));
          end = end + 1;
        })
  unfolding insert
  insert-some x h room =
      let l : length (slice head it (end - it)) ≡ end - it =
        length-slice head it (end - it) (omega arith) in
      let e : add32 end 1 ≡ end + 1 = omega arith in
      ground (
        arith,
        l,
        e,
        copy_up h room,
        length-overwrite head (it + 1) (slice head it (end - it)),
        store-some (overwrite head (it + 1) (slice head it (end - it))) it (x ∷ []),
        overwrite-overwrite_right head it (it + 1) (x ∷ []) (slice head it (end - it)),
      )

  contents-insert :
      (x : A)
      → it ≤ end
      → end < cap
      → slice (overwrite head it (x ∷ slice head it (end - it))) 0 (end + 1)
        ≡ take it (contents v) ++ (x ∷ drop it (contents v))
  unfolding contents
  contents-insert x h room =
      let y = x ∷ slice head it (end - it) in
      let l : length y ≡ end - it + 1 = omega (arith, length-slice head it (end - it)) in
      sym (
        slice-append (overwrite head it y) 0 it (end - it + 1) it (end + 1) (omega arith)
          (omega arith))
      ∙ ap₂ ◌++◌
          (slice-overwrite_before head it y 0 it (omega arith)
            ∙ sym (take-slice head 0 end it h (omega arith)))
          (slice-overwrite_self head it (end - it + 1) y (omega arith) (omega (arith, l))
            ∙ ap (λ t. x ∷ t)
                (sym (
                  drop-slice head 0 end it it (end - it) h (omega arith) (omega arith)
                    (omega arith))))

  copy_down :
      it < end
      → end < cap
      → copy v it (add32 it 1) (sub32 end it)
        ≡ some (record v { vector_head = overwrite head it (slice head (it + 1) (end - it)) })
  unfolding copy copy_forward
  copy_down h room =
      let t : add32 it 1 ≡ it + 1 = omega arith in
      let c : sub32 end it ≡ end - it = omega arith in
      let n : sub32 (it + 1) it ≡ 1 = omega arith in
      let le : ltb it (it + 1) ≡ true = ground arith in
      ground (arith, t, c, n, le, forward_loop_lem (end - it) (end - it) head it (it + 1))

  delete-some :
      it < end
      → end < cap
      → 1 < end
      → delete v it
        ≡ some (record v {
          vector_head = overwrite head it (slice head (it + 1) (end - it));
          end = end - 1;
        })
  unfolding delete
  delete-some h room more =
      let e : (it == end) ≡ false = ground arith in
      let f : (it == v.begin && add32 it 1 == end) ≡ false = ground arith in
      let g : sub32 end 1 ≡ end - 1 = omega arith in rw (e, f, copy_down h room, g)

  contents-delete :
      it < end
      → end < cap
      → slice (overwrite head it (slice head (it + 1) (end - it))) 0 (end - 1)
        ≡ take it (contents v) ++ drop (it + 1) (contents v)
  unfolding contents
  contents-delete h room =
      let n = end - 1 - it in
      let y = slice head (it + 1) (end - it) in
      let b = overwrite head it y in
      let l : length y ≡ end - it = length-slice head (it + 1) (end - it) (omega arith) in
      let lb : length b ≡ length head = length-overwrite head it y (omega (arith, l)) in
      sym (slice-append b 0 it n it (end - 1) (omega arith) (omega arith))
      ∙ ap₂ ◌++◌
          (slice-overwrite_before head it y 0 it (omega arith)
            ∙ sym (take-slice head 0 end it (omega arith) (omega arith)))
          (sym (take-slice b it (end - it) n (omega arith) (omega (arith, lb)))
            ∙ ap (take n)
                (slice-overwrite_self head it (end - it) y (omega arith) (omega (arith, l)))
            ∙ take-slice head (it + 1) (end - it) n (omega arith) (omega arith)
            ∙ sym (
                drop-slice head 0 end (it + 1) (it + 1) n (omega arith) (omega arith) (omega arith)
                  (omega arith)))

-- With room left, `vector_insert` puts the element at the position: those from there on stand
-- behind it, in order, and the vector stays valid.
pub insert_lem {ℓ} :
    {A : Type ℓ} (v : Vector A) (it : ℕ) (x : A)
    → IsValid v
    → it ≤ v.end
    → v.end < v.capacity
    → (v' : Vector A) × (insert v it x ≡ some v')
      × (contents v' ≡ take it (contents v) ++ (x ∷ drop it (contents v)))
      × IsValid v'
insert_lem v it x k h room = (
  record v {
    vector_head = overwrite v.vector_head it (x ∷ slice v.vector_head it (v.end - it));
    end = v.end + 1;
  },
  insert-some v k it x h room,
  unfold contents in (contents-insert v k it x h room),
  omega (
    arith,
    length-slice v.vector_head it (v.end - it),
    length-overwrite v.vector_head it (x ∷ slice v.vector_head it (v.end - it)),
  ),
)

-- With room left and more than one element, `vector_delete` takes out the element at the position
-- and keeps the others in order, and the vector stays valid.
pub delete_lem {ℓ} :
    {A : Type ℓ} (v : Vector A) (it : ℕ)
    → IsValid v
    → it < v.end
    → v.end < v.capacity
    → 1 < v.end
    → (v' : Vector A) × (delete v it ≡ some v')
      × (contents v' ≡ take it (contents v) ++ drop (it + 1) (contents v))
      × IsValid v'
delete_lem v it k h room more = (
  record v {
    vector_head = overwrite v.vector_head it (slice v.vector_head (it + 1) (v.end - it));
    end = v.end - 1;
  },
  delete-some v k it h room more,
  unfold contents in (contents-delete v k it h room),
  omega (
    arith,
    length-slice v.vector_head (it + 1) (v.end - it),
    length-overwrite v.vector_head it (slice v.vector_head (it + 1) (v.end - it)),
  ),
)
