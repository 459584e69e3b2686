-- ===== src/Protocol/Escape.antt =====
-- internal/protocol/commands.go: the escaping of arguments, and the frames of the file commands.
use makera_cnc_controller.Base.{ℕ, List, [], ◌∷◌, ◌++◌, ◌==◌, if◌then◌else◌, map}
use makera_cnc_controller.Base.Text.{Text, codes}
use makera_cnc_controller.Protocol.{encode}

-- A byte of the argument: a backslash becomes a slash, and then the replacer runs.
unfoldable pub slashed : ℕ → ℕ
slashed c = if c == 92 then b'/' else c

unfoldable pub escaper : ℕ → ℕ
escaper c =
    if c == b' '
    then 1
    else if c == b'?'
    then 2
    else if c == b'*'
    then 3
    else if c == b'!'
    then 4
    else if c == b'~'
    then 5
    else c

unfoldable pub escape : Text → Text
unfolding slashed escaper
escape s = map escaper (map slashed s)

unfoldable pub unescaper : ℕ → ℕ
unescaper c =
    if c == 1
    then b' '
    else if c == 2
    then b'?'
    else if c == 3
    then b'*'
    else if c == 4
    then b'!'
    else if c == 5
    then b'~'
    else c

unfoldable pub unescape : Text → Text
unfolding unescaper
unescape s = map unescaper s

abbrev newline : Text
newline = 10 ∷ []

-- A CTRL_MULTI frame with this text.
unfoldable pub text_command : Text → List ℕ
text_command line = encode 0xA2 line

unfoldable pub ls_command : Text → List ℕ
unfolding text_command escape
ls_command dir = text_command (codes "ls -e -s " ++ (escape dir ++ newline))

unfoldable pub rm_line : Text → Text
unfolding escape
rm_line path = codes "rm " ++ (escape path ++ (codes " -e" ++ newline))

unfoldable pub rm_command : Text → List ℕ
unfolding text_command rm_line
rm_command path = text_command (rm_line path)

unfoldable pub mv_line : Text → Text → Text
unfolding escape
mv_line from to = codes "mv " ++ (escape from ++ (b' ' ∷ (escape to ++ (codes " -e" ++ newline))))

unfoldable pub mv_command : Text → Text → List ℕ
unfolding text_command mv_line
mv_command from to = text_command (mv_line from to)

unfoldable pub mkdir_command : Text → List ℕ
unfolding text_command escape
mkdir_command dir = text_command (codes "mkdir " ++ (escape dir ++ (codes " -e" ++ newline)))

unfoldable pub md5_command : Text → List ℕ
unfolding text_command escape
md5_command path = text_command (codes "md5sum " ++ (escape path ++ newline))

unfoldable pub ftype_command : List ℕ
unfolding text_command
ftype_command = text_command (codes "ftype" ++ newline)

-- FILE_START.
unfoldable pub upload_command : Text → List ℕ
unfolding escape
upload_command path = encode 0xB0 (codes "upload " ++ (escape path ++ newline))

unfoldable pub download_command : Text → List ℕ
unfolding escape
download_command path = encode 0xB0 (codes "download " ++ (escape path ++ newline))

unfoldable pub play_line : Text → Text
unfolding escape
play_line path = codes "play " ++ (escape path ++ newline)

unfoldable pub query_status : List ℕ
query_status = encode 0xA1 (b'?' ∷ [])

unfoldable pub control : ℕ → List ℕ
control c = encode 0xA1 (c ∷ [])
