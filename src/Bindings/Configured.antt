-- ===== src/Bindings/Configured.antt =====
-- What the setters of a database leave of it, src/lua/LuaDatabase.cpp and src/mysql/Database.cpp.
use my_sqloo.Base.{
  ℕ, ◌^◌, ◌≤◌, ◌<◌, ◌≡◌, refl, ap, sym, ◌∙◌, Bool, true, false, not, String, some, List, [], ◌∷◌,
  arith, ◌||◌, ◌==◌, if◌then◌else◌, Bool-cases, inl, inr, some-injective,
}
use my_sqloo.Bindings.{
  LuaArguments, Casts, LuaType, check_type, settle, optional_argument, number_type, bool_type,
  string_type,
}
use my_sqloo.Bindings.Configure.{
  SslModes, Setter, ssl_mode_setter, ssl_settings_setter, read_timeout_setter, write_timeout_setter,
  connect_timeout_setter, auto_reconnect_setter, multi_statements_setter, cache_setter, call_setter,
  int_ltb, lua_set_ssl_mode, lua_set_timeout, lua_set_ssl_settings, lua_set_flag, invalid_timeout,
}
use my_sqloo.Objects.{Database, SslSettings}
use my_sqloo.Outcome.{Checked, done, thrown}
use my_sqloo.Settings.{
  is_not_connected, has_started, already_connected, set_should_auto_reconnect, set_multi_statements,
  set_ssl_settings, set_cache_prepared_statements, set_connect_timeout, set_read_timeout,
  set_write_timeout, set_ssl_mode,
}

module _ (casts : Casts) (modes : SslModes) where
  abbrev pub set_all : List (Setter × LuaArguments) → Database → Database
  set_all [] db = db
  set_all ((setter, args) ∷ rest) db =
      set_all rest (settle (call_setter casts modes setter args db) db)

-- A timeout is unset or the bits of an int that is not 0.
abbrev pub Timeout : ℕ → Type 0
Timeout t = t < 2 ^ 32

module _ (modes : SslModes) where
  pub record Sound (db : Database) : Type 0 where
    pub mode : (m : ℕ) → db.ssl_mode ≡ some m → (modes.disabled ≤ m) × (m ≤ modes.verify_identity)
    pub read : Timeout db.read_timeout
    pub write : Timeout db.write_timeout
    pub connect : Timeout db.connect_timeout

-- What the setters leave: only their fields change, and four of them not once the database was
-- connected.
pub record Kept (db db' : Database) : Type 0 where
  pub rest : db' ≡ record db {
    ssl_mode = db'.ssl_mode;
    custom_ssl_settings = db'.custom_ssl_settings;
    read_timeout = db'.read_timeout;
    write_timeout = db'.write_timeout;
    connect_timeout = db'.connect_timeout;
    should_auto_reconnect = db'.should_auto_reconnect;
    use_multi_statements = db'.use_multi_statements;
    cache_prepared_statements = db'.cache_prepared_statements;
  }
  pub frozen :
      is_not_connected db.status ≡ false
      → (db'.custom_ssl_settings ≡ db.custom_ssl_settings)
        × (db'.should_auto_reconnect ≡ db.should_auto_reconnect)
        × (db'.use_multi_statements ≡ db.use_multi_statements)
        × (db'.cache_prepared_statements ≡ db.cache_prepared_statements)

Kept-refl : (db : Database) → Kept db db
Kept-refl db = record { rest = refl; frozen = λ _. (refl, refl, refl, refl) }

Kept-trans : (a b c : Database) → Kept a b → Kept b c → Kept a c
Kept-trans a b c k l =
    let moved : (x : Database) → Database = λ x. record x {
      ssl_mode = c.ssl_mode;
      custom_ssl_settings = c.custom_ssl_settings;
      read_timeout = c.read_timeout;
      write_timeout = c.write_timeout;
      connect_timeout = c.connect_timeout;
      should_auto_reconnect = c.should_auto_reconnect;
      use_multi_statements = c.use_multi_statements;
      cache_prepared_statements = c.cache_prepared_statements;
    } in
    let status : b.status ≡ a.status = ap (λ (x : Database). x.status) k.rest in
    record {
      rest = l.rest ∙ ap moved k.rest;
      frozen = λ h.
          let (settings, reconnect, statements, cache) = k.frozen h in
          let (settings', reconnect', statements', cache') =
            l.frozen (ap is_not_connected status ∙ h) in
          (settings' ∙ settings, reconnect' ∙ reconnect, statements' ∙ statements, cache' ∙ cache);
    }

not_both : (b : Bool) → b ≡ true → b ≡ false → ⊥
not_both b p q = ground arith

module _ (casts : Casts) (modes : SslModes) where
  Good : Database → Database → Type 0
  Good db db' = (Sound modes db → Sound modes db') × Kept db db'

  unchanged : (db : Database) → Good db db
  unfolding Good
  unchanged db = (λ v. v, Kept-refl db)

  -- A guard that throws, or skips the rest.
  guarded :
      (b : Bool) (message : String) (db db' : Database)
      → (b ≡ false → Good db db')
      → Good db (settle (if b then thrown message else done db') db)
  guarded true message db db' h = unchanged db
  guarded false message db db' h = h refl

  typed :
      (args : LuaArguments) (i : ℕ) (type : LuaType) (c : Checked Database) (db : Database)
      → Good db (settle c db)
      → Good db (settle (check_type args i type c) db)
  typed args i type c db h = elim (Bool-cases (args.is_type i type)) [
    | inl e ↦ rw e h
    | inr e ↦ rw e (unchanged db)
  ]

  in_range :
      (m : ℕ)
      → m < 2 ^ 32
      → modes.disabled < 2 ^ 31
      → modes.verify_identity < 2 ^ 31
      → (int_ltb m modes.disabled || int_ltb modes.verify_identity m) ≡ false
      → (modes.disabled ≤ m) × (m ≤ modes.verify_identity)
  in_range m bits small last e = ground arith

  ssl_mode-Good :
      (mode : ℕ) (db : Database)
      → mode < 2 ^ 32
      → modes.disabled < 2 ^ 31
      → modes.verify_identity < 2 ^ 31
      → Good db (
          settle
            (if int_ltb mode modes.disabled || int_ltb modes.verify_identity mode
              then thrown "Invalid SSL mode"
              else done (set_ssl_mode mode db))
            db)
  unfolding Good set_ssl_mode
  ssl_mode-Good mode db bits small last =
      guarded (int_ltb mode modes.disabled || int_ltb modes.verify_identity mode) "Invalid SSL mode"
        db (record db { ssl_mode = some mode })
        λ e. (
          λ v. record {
            mode = λ m h.
                let same : mode ≡ m = some-injective h in
                let fits : m < 2 ^ 32 = omega (arith, same, bits) in
                in_range m fits small last (
                  ap (λ x. int_ltb x modes.disabled || int_ltb modes.verify_identity x) (sym same)
                  ∙ e);
            read = v.read;
            write = v.write;
            connect = v.connect;
          },
          record { rest = refl; frozen = λ _. (refl, refl, refl, refl) },
        )

  -- The settings that a connected database refuses to change.
  frozen-Good :
      (b : Bool) (message : String) (db : Database) (settings : SslSettings)
      (reconnect statements cache : Bool)
      → (is_not_connected db.status ≡ false → b ≡ true)
      → let db' = record db {
        custom_ssl_settings = settings;
        should_auto_reconnect = reconnect;
        use_multi_statements = statements;
        cache_prepared_statements = cache;
      } in
        Good db (settle (if b then thrown message else done db') db)
  unfolding Good
  frozen-Good b message db settings reconnect statements cache refuses =
      let db' = record db {
        custom_ssl_settings = settings;
        should_auto_reconnect = reconnect;
        use_multi_statements = statements;
        cache_prepared_statements = cache;
      } in
      guarded b message db db' λ e. (
        λ v. record { mode = v.mode; read = v.read; write = v.write; connect = v.connect },
        record { rest = refl; frozen = λ h. absurd (not_both b (refuses h) e) },
      )

  timeouts-Good :
      (db : Database) (r w c : ℕ)
      → (Sound modes db → Timeout r × Timeout w × Timeout c)
      → Good db (record db { read_timeout = r; write_timeout = w; connect_timeout = c })
  unfolding Good
  timeouts-Good db r w c h = (
    λ v. let (hr, hw, hc) = h v in record { mode = v.mode; read = hr; write = hw; connect = hc },
    record { rest = refl; frozen = λ _. (refl, refl, refl, refl) },
  )

  timeout-Good :
      (setter : ℕ → Database → Database) (args : LuaArguments) (db : Database)
      → ((timeout : ℕ) → timeout < 2 ^ 32 → Good db (setter timeout db))
      → casts.to_int (args.get_number 2) < 2 ^ 32
      → Good db (settle (lua_set_timeout casts setter args db) db)
  unfolding lua_set_timeout
  timeout-Good setter args db h bits =
      let timeout = casts.to_int (args.get_number 2) in
      guarded (timeout == 0) invalid_timeout db (setter timeout db) λ _. h timeout bits

  call_setter-Good :
      ((x : ℕ) → casts.to_int x < 2 ^ 32)
      → modes.disabled < 2 ^ 31
      → modes.verify_identity < 2 ^ 31
      → (setter : Setter) (args : LuaArguments) (db : Database)
      → Good db (settle (call_setter casts modes setter args db) db)
  unfolding call_setter lua_set_ssl_mode lua_set_ssl_settings lua_set_flag Good
      set_should_auto_reconnect set_multi_statements set_ssl_settings set_cache_prepared_statements
      set_connect_timeout set_read_timeout set_write_timeout has_started
  call_setter-Good bits small last ssl_mode_setter args db =
      let mode = casts.to_int (args.get_number 2) in
      typed args 2 number_type
        (if int_ltb mode modes.disabled || int_ltb modes.verify_identity mode
          then thrown "Invalid SSL mode"
          else done (set_ssl_mode mode db))
        db (ssl_mode-Good mode db (bits (args.get_number 2)) small last)
  call_setter-Good bits small last ssl_settings_setter args db =
      let text : ℕ → String = λ i. optional_argument args i string_type (args.get_string i) "" in
      frozen-Good (not (is_not_connected db.status)) "Cannot set SSL settings after connecting!" db
        (record { key = text 2; cert = text 3; ca = text 4; capath = text 5; cipher = text 6 })
        db.should_auto_reconnect db.use_multi_statements db.cache_prepared_statements
        (λ h. ground (arith, h))
  call_setter-Good bits small last read_timeout_setter args db =
      timeout-Good set_read_timeout args db
        (λ t h.
          timeouts-Good db t db.write_timeout db.connect_timeout (λ v. (h, v.write, v.connect)))
        (bits (args.get_number 2))
  call_setter-Good bits small last write_timeout_setter args db =
      timeout-Good set_write_timeout args db
        (λ t h. timeouts-Good db db.read_timeout t db.connect_timeout (λ v. (v.read, h, v.connect)))
        (bits (args.get_number 2))
  call_setter-Good bits small last connect_timeout_setter args db =
      timeout-Good set_connect_timeout args db
        (λ t h. timeouts-Good db db.read_timeout db.write_timeout t (λ v. (v.read, v.write, h)))
        (bits (args.get_number 2))
  call_setter-Good bits small last auto_reconnect_setter args db =
      let flag = args.get_bool 2 in
      typed args 2 bool_type (set_should_auto_reconnect flag db) db (
        frozen-Good (has_started db) already_connected db db.custom_ssl_settings flag
          db.use_multi_statements db.cache_prepared_statements (λ h. ground (arith, h)))
  call_setter-Good bits small last multi_statements_setter args db =
      let flag = args.get_bool 2 in
      typed args 2 bool_type (set_multi_statements flag db) db (
        frozen-Good (has_started db) already_connected db db.custom_ssl_settings
          db.should_auto_reconnect flag db.cache_prepared_statements (λ h. ground (arith, h)))
  call_setter-Good bits small last cache_setter args db =
      let flag = args.get_bool 2 in
      typed args 2 bool_type (set_cache_prepared_statements flag db) db (
        frozen-Good (not (is_not_connected db.status))
          "setCachePreparedStatements has to be called before db:start()!" db db.custom_ssl_settings
          db.should_auto_reconnect db.use_multi_statements flag (λ h. ground (arith, h)))

  -- Let the casts give 32 bits and the SSL modes be ints that are not negative. Over any calls of the
  -- setters, whatever their arguments, a chosen SSL mode stays one of the range and each timeout stays
  -- within 32 bits; no field changes that is not a setting, and once the database was connected the SSL
  -- settings and the three flags keep their values.
  pub set_all-Sound :
      ((x : ℕ) → casts.to_int x < 2 ^ 32)
      → modes.disabled < 2 ^ 31
      → modes.verify_identity < 2 ^ 31
      → (calls : List (Setter × LuaArguments)) (db : Database) → Sound modes db
      → let db' = set_all casts modes calls db in Sound modes db' × Kept db db'
  unfolding Good
  set_all-Sound bits small last [] db v = (v, Kept-refl db)
  set_all-Sound bits small last ((setter, args) ∷ rest) db v =
      let db' = settle (call_setter casts modes setter args db) db in
      let (sound, kept) = call_setter-Good bits small last setter args db in
      let (sound', kept') = set_all-Sound bits small last rest db' (sound v) in
      (sound', Kept-trans db db' (set_all casts modes rest db') kept kept')
