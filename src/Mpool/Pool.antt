-- ===== src/Mpool/Pool.antt =====
-- The pool of mpool.c: mem_pool, mem_get, mem_add, mem_delete, mem_destroy and destroy_elem. The
-- tree of kavl.h is an interface with what its comments promise; memory is always given.
pub mod Owned
use byedpi.Prelude.{
  ℕ, zero, suc, ◌+◌, ◌-◌, ◌≡◌, ◌≤◌, ◌<◌, Bool, true, false, not, Option, none, some, List, [], ◌∷◌,
  length, ltb, ◌==◌, if◌then◌else◌,
}
use byedpi.Mpool.{Elem, CmpType}

-- struct elem by its address, with its length and data.
pub record Item : Type 0 where
  pub at : ℕ
  pub elem : Elem

-- The calls of kavl.h. `insert` gives `none` when the new element went in, and else the one that is
-- there already.
pub record Kavl (T : Type 0) : Type 0 where
  pub null : T
  pub is_null : T → Bool
  pub find : CmpType → T → Elem → Option Item
  pub insert : CmpType → T → Item → Option Item × T
  pub erase : CmpType → T → Elem → Option Item × T
  pub erase_first : T → Option Item × T

-- What one call of destroy_elem gives back: the struct, and its data and extra bytes.
pub record Freed : Type 0 where
  pub at : ℕ
  pub its_data : Bool
  pub its_extra : Bool

-- struct mphdr: MF_STATIC, MF_EXTRA, and the fields; what was freed so far, the newest first.
pub record Mphdr (T : Type 0) : Type 0 where
  pub is_static : Bool
  pub has_extra : Bool
  pub cmp_type : CmpType
  pub count : ℕ
  pub root : T
  pub freed : List Freed

module _ {T : Type 0} (k : Kavl T) where
  unfoldable pub mem_pool : Bool → Bool → CmpType → Mphdr T
  mem_pool is_static has_extra cmp_type = record {
    is_static = is_static;
    has_extra = has_extra;
    cmp_type = cmp_type;
    count = 0;
    root = k.null;
    freed = [];
  }

  unfoldable pub mem_get : Mphdr T → Elem → Option Item
  mem_get hdr key = k.find hdr.cmp_type hdr.root key

  unfoldable pub destroy_elem : Mphdr T → Item → Mphdr T
  destroy_elem hdr e = record hdr {
    freed =
        record { at = e.at; its_data = not hdr.is_static; its_extra = hdr.has_extra } ∷ hdr.freed;
  }

  abbrev pub erased : Mphdr T → Option Item × T → Mphdr T
  erased hdr (none, t) = record hdr { root = t }
  erased hdr (some e, t) =
      let hdr' = destroy_elem (record hdr { root = t }) e in record hdr' { count = hdr'.count - 1 }

  unfoldable pub mem_delete : Mphdr T → Elem → Mphdr T
  mem_delete hdr key = erased hdr (k.erase hdr.cmp_type hdr.root key)

  -- After an insert: the new element is in, or a longer one is deleted and the loop goes on, or the
  -- new one is destroyed.
  abbrev pub inserted :
      Mphdr T
      → Item
      → Option Item × T
      → (Mphdr T → Option (Item × Mphdr T))
      → Option (Item × Mphdr T)
  inserted hdr e (none, t) again = some (e, record hdr { root = t; count = hdr.count + 1 })
  inserted hdr e (some v, t) again =
      if ltb e.elem.len v.elem.len
      then again (mem_delete (record hdr { root = t }) v.elem)
      else some (v, destroy_elem (record hdr { root = t }) e)

  -- `fuel` bounds the number of inserts.
  unfoldable pub mem_add : ℕ → Mphdr T → Item → Option (Item × Mphdr T)
  mem_add zero hdr e = none
  mem_add (suc fuel) hdr e =
      inserted hdr e (k.insert hdr.cmp_type hdr.root e) (λ hdr'. mem_add fuel hdr' e)

  abbrev pub after_first :
      Mphdr T → Option Item × T → (Mphdr T → Option (Mphdr T)) → Option (Mphdr T)
  after_first hdr (none, t) again = some (record hdr { root = t })
  after_first hdr (some e, t) again = again (destroy_elem (record hdr { root = t }) e)

  -- mem_destroy, up to free(hdr); `fuel` bounds the rounds.
  unfoldable pub mem_destroy : ℕ → Mphdr T → Option (Mphdr T)
  mem_destroy zero hdr = none
  mem_destroy (suc fuel) hdr =
      let next = after_first hdr (k.erase_first hdr.root) (λ hdr'. mem_destroy fuel hdr') in
      if k.is_null hdr.root then some hdr else next
