-- ===== src/Database/Log.antt =====
-- The message that `hcv_initialize_database` (hcv_database.cc) writes to the log of the server.
use helpcovid.Database.Connection.{ProcessInfo, signed_text}
use helpcovid.Cstr.{c_str}
use helpcovid.Prelude.{◌||◌, [], ◌==◌, not, if◌then◌else◌, ◌++◌, codes, all, take, Bool, Bytes}

-- The git identifier in its buffer of 24 bytes.
unfoldable pub gitbuf : Bytes → Bytes
unfolding c_str
gitbuf gitid =
    take 19 (c_str gitid) ++ (if all (λ c. not (c == b'+')) (c_str gitid) then [] else codes "+")

-- The message for the log of the server, as its format gives it.
unfoldable pub log_message : ProcessInfo → Bool → Bytes
unfolding gitbuf signed_text c_str
log_message proc cleardata =
    codes "starting HelpCovid git "
    ++ (take 22 (gitbuf (proc.gitid))
        ++ (codes " (built "
            ++ (take 80 (c_str (proc.timestamp))
                ++ (codes ", md5 "
                    ++ (take 20 (c_str (proc.md5sum))
                        ++ (codes "...) "
                            ++ ((if cleardata then codes "cleared" else codes "initialized")
                                ++ (codes " on "
                                    ++ (take 64 (c_str (proc.hostname))
                                        ++ (codes " pid " ++ signed_text 32 (proc.pid)))))))))))

-- The buffer of 256 bytes.
unfoldable pub logreqbuf : ProcessInfo → Bool → Bytes
unfolding log_message
logreqbuf proc cleardata = take 255 (log_message proc cleardata)

-- The statement that logs a message, in its buffer of 300 bytes.
unfoldable pub fullreqbuf : Bytes → Bytes
fullreqbuf message = take 299 (codes "DO $$BEGIN RAISE LOG '" ++ (message ++ codes "'; END;$$;"))

-- None of the bytes that the message must not have: the quote, the semicolon and the backslash.
abbrev pub is_loggable : Bytes → Bool
is_loggable = all (λ c. not (c == 39 || (c == b';' || c == 92)))
