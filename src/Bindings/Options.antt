-- ===== src/Bindings/Options.antt =====
-- The options of a query as Lua sets them, `setOption` of src/lua/LuaIQuery.cpp.
use my_sqloo.Base.{
  ℕ, ◌<◌, ◌≡◌, ◌∙◌, refl, ap, Bool, true, false, ◌&&◌, String, List, [], ◌∷◌, ◌==◌, leb,
  if◌then◌else◌, Bool-cases, inl, inr,
}
use my_sqloo.Bindings.{LuaArguments, Casts, number_type, bool_type, check_type, settle}
use my_sqloo.IQuery.{is_option, set_option, has_option}
use my_sqloo.IQuery.Options.{set_option_lem}
use my_sqloo.Objects.{IQuery}
use my_sqloo.Outcome.{Checked, thrown}

module _ (casts : Casts) where
  -- A third argument, if there is one, must be a Boolean.
  unfoldable pub lua_set_option : LuaArguments → IQuery → Checked IQuery
  lua_set_option args q =
      let option = casts.to_int (args.get_number 2) in
      check_type args 2 number_type (
        if leb 3 args.top
        then check_type args 3 bool_type (set_option option (args.get_bool 3) q)
        else set_option option true q)

  unfoldable pub call_options : List LuaArguments → IQuery → IQuery
  call_options [] q = q
  call_options (args ∷ rest) q = call_options rest (settle (lua_set_option args q) q)

  -- The call names one of the options, and its arguments have the types.
  abbrev pub is_accepted : LuaArguments → Bool
  is_accepted args =
      args.is_type 2 number_type
      && ((if leb 3 args.top then args.is_type 3 bool_type else true)
          && is_option (casts.to_int (args.get_number 2)))

  abbrev pub flag_of : LuaArguments → Bool
  flag_of args = if leb 3 args.top then args.get_bool 3 else true

  -- Whether an option is set after the calls: as the last accepted call for it says.
  abbrev pub last_written : ℕ → List LuaArguments → Bool → Bool
  last_written p [] b = b
  last_written p (args ∷ rest) b =
      last_written p rest
        (if is_accepted args && (p == casts.to_int (args.get_number 2)) then flag_of args else b)

  refused :
      (o : ℕ) (b : Bool) (q : IQuery)
      → is_option o ≡ false
      → set_option o b q ≡ thrown "Invalid Option"
  unfolding set_option
  refused o b q e = rw (e) refl

  set_or_refused :
      (o p : ℕ) (b : Bool) (q : IQuery)
      → q.options < 16
      → is_option p ≡ true
      → let q' = settle (set_option o b q) q in
        (q'.options < 16)
        × (has_option q' p ≡ (if is_option o && (p == o) then b else has_option q p))
  set_or_refused o p b q h hp = elim (Bool-cases (is_option o)) [
    | inl ho ↦
        let (q', done', below, written) = set_option_lem o p b q h ho hp in
        rw (done', ho) (below, written)
    | inr other ↦ rw (refused o b q other, other) (h, refl)
  ]

  by_types :
      (second third has_third : Bool) (message message' : String) (o p : ℕ) (b : Bool) (q : IQuery)
      → q.options < 16
      → is_option p ≡ true
      → let r : Checked IQuery =
          if second
          then if has_third
            then if third then set_option o b q else thrown message
            else set_option o true q
          else thrown message' in
        let q' = settle r q in
        (q'.options < 16)
        × (has_option q' p ≡ (
            if (second && ((if has_third then third else true) && is_option o)) && (p == o)
            then if has_third then b else true
            else has_option q p))
  by_types false third has_third message message' o p b q h hp = (h, refl)
  by_types true true true message message' o p b q h hp = set_or_refused o p b q h hp
  by_types true false true message message' o p b q h hp = (h, refl)
  by_types true third false message message' o p b q h hp = set_or_refused o p true q h hp

  one_call :
      (args : LuaArguments) (p : ℕ) (q : IQuery)
      → q.options < 16
      → is_option p ≡ true
      → let q' = settle (lua_set_option args q) q in
        (q'.options < 16)
        × (has_option q' p ≡ (
            if is_accepted args && (p == casts.to_int (args.get_number 2))
            then flag_of args
            else has_option q p))
  unfolding lua_set_option
  one_call args p q h hp =
      by_types (args.is_type 2 number_type) (args.is_type 3 bool_type) (leb 3 args.top)
        (args.bad_argument 3 bool_type) (args.bad_argument 2 number_type)
        (casts.to_int (args.get_number 2)) p (args.get_bool 3) q h hp

  -- Let the options of a query be below 16, as those of a new query are. After any calls of setOption,
  -- with any arguments, they are below 16, and each of the four options is set exactly when the
  -- last call that named it, with arguments of the right types, set it, and as before without such a call.
  pub call_options_lem :
      (calls : List LuaArguments) (p : ℕ) (q : IQuery)
      → q.options < 16
      → is_option p ≡ true
      → ((call_options calls q).options < 16)
        × (has_option (call_options calls q) p ≡ last_written p calls (has_option q p))
  unfolding call_options
  call_options_lem [] p q h hp = (h, refl)
  call_options_lem (args ∷ rest) p q h hp =
      let q' = settle (lua_set_option args q) q in
      let (below, written) = one_call args p q h hp in
      let (below', last) = call_options_lem rest p q' below hp in
      (below', last ∙ ap (last_written p rest) written)
