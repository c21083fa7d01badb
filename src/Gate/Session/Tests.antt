-- ===== src/Gate/Session/Tests.antt =====
-- Concrete runs of a session. (gate/session.go)
use gira.Prelude.{◌≡◌, refl, some, none, [], ◌∷◌}
use gira.Prelude.Int.{pos}
use gira.Prelude.Keys.{lookup, store, remove}
use gira.Gate.Session.{
  Value, Session, illegal_uid, new_session, bind, set_key, remove_key, get_int, get_int8,
  get_string, get_value,
}

abbrev fresh : Session
fresh = new_session 1 281474976710656

-- A key that is written twice, and one that is removed.
abbrev used : Session
used =
    remove_key
      (set_key
        (set_key (set_key fresh (97 ∷ []) (Value.int (pos 5))) (98 ∷ []) (Value.string (1 ∷ [])))
        (97 ∷ []) (Value.int8 (pos 6)))
      (98 ∷ [])

reads_int : get_int used (97 ∷ []) ≡ pos 0
unfolding new_session set_key remove_key lookup store remove
reads_int = refl

reads_int8 : get_int8 used (97 ∷ []) ≡ pos 6
unfolding new_session set_key remove_key lookup store remove
reads_int8 = refl

reads_removed : get_string used (98 ∷ []) ≡ []
unfolding new_session set_key remove_key lookup store remove
reads_removed = refl

no_value : get_value used (98 ∷ []) ≡ none
unfolding new_session set_key remove_key lookup store remove
no_value = refl

refuses_illegal : (bind fresh (pos 0)).1 ≡ some illegal_uid
unfolding bind new_session
refuses_illegal = refl

binds : (bind fresh (pos 7)).0.uid ≡ pos 7
unfolding bind new_session
binds = refl
