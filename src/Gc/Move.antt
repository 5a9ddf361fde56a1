-- ===== src/Gc/Move.antt =====
-- move_object_to_head and append_to_tail of gc.c on the lists that the pointers represent.
use brianscheme.Base.{◌≡◌, ◌∙◌, List, ◌∷◌, ◌++◌}
use brianscheme.Base.Members.{
  Apart, Apart-symm, Apart-middle, middle-Apart, Apart-cons, Nodup, Nodup-middle,
}
use brianscheme.Object.{Ptr, null}
use brianscheme.Gc.{ObjectList, Heap, unlink, move_object_to_head}
use brianscheme.Gc.Chain.{Chain_middle, IsList}
use brianscheme.Gc.Unlink.{unlink_rest, unlink-IsList, unlink-frame}
use brianscheme.Gc.Link.{link_rest, link-IsList, link-frame}

-- The two lists of the heap, with no object on both or twice on one.
pub record IsHeap (h : Heap) (active old : List Ptr) : Type 0 where
  pub active_list : IsList h.next h.prev h.active active
  pub old_list : IsList h.next h.prev h.old old
  pub active_distinct : Nodup active
  pub old_distinct : Nodup old
  pub apart : Apart active old

IsList-by :
    (n m : Ptr → Ptr) (l k : ObjectList) (xs : List Ptr) → l ≡ k → IsList n m k xs → IsList n m l xs
IsList-by n m l k xs e w = rw e w

-- move_object_to_head takes an object out of the active list, wherever it stands there, and puts
-- it in front of the old list; both lists stay well formed, and no object is lost or doubled.
pub move-IsHeap :
    (h : Heap) (xs : List Ptr) (a : Ptr) (ys os : List Ptr)
    → IsHeap h (xs ++ a ∷ ys) os
    → IsHeap (move_object_to_head a h) (xs ++ ys) (a ∷ os)
unfolding move_object_to_head
move-IsHeap h xs a ys os w =
    let u = unlink a h in
    let (out, distinct) = Nodup-middle a xs ys w.active_distinct in
    let (_, _, nn, _) = Chain_middle h.next h.prev null xs a ys w.active_list.chain in
    let rest = unlink-IsList h a xs ys w.active_list w.active_distinct in
    let old = IsList-by u.next u.prev u.old h.old os (unlink_rest a h).0 (
      unlink-frame h a xs ys h.old os w.active_list w.old_list
        (Apart-symm (xs ++ a ∷ ys) os w.apart)) in
    let a_out = middle-Apart a xs ys os w.apart in
    let apart = Apart-middle a xs ys os w.apart in
    record {
      active_list =
          IsList-by _ _ _ u.active (xs ++ ys) (link_rest a u).0
            (link-frame u a nn u.active (xs ++ ys) os old rest out apart);
      old_list = link-IsList u a nn os old a_out w.old_distinct;
      active_distinct = distinct;
      old_distinct = (a_out, w.old_distinct);
      apart = Apart-cons a (xs ++ ys) os out apart;
    }

pub move_colors :
    (h : Heap) (a : Ptr)
    → ((move_object_to_head a h).color ≡ h.color)
      × ((move_object_to_head a h).current_color ≡ h.current_color)
unfolding move_object_to_head
move_colors h a =
    let u = unlink_rest a h in let l = link_rest a (unlink a h) in (l.1 ∙ u.1, l.2 ∙ u.2)
