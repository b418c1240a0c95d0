-- ===== src/Merge/Cmd.antt =====
-- The commands that can be merged: their numbers in `enum RedisCommandType` of
-- src/common/channel/codec/redis_command.hpp. A name that ends in 2 is the variant that replies
-- with a status only.
use ardb.Prelude.{ℕ}

abbrev pub pexpireat : ℕ
pexpireat = 55

abbrev pub append : ℕ
append = 100

abbrev pub set : ℕ
set = 102

abbrev pub decr : ℕ
decr = 106

abbrev pub decrby : ℕ
decrby = 107

abbrev pub incr : ℕ
incr = 111

abbrev pub incrby : ℕ
incrby = 112

abbrev pub incrbyfloat : ℕ
incrbyfloat = 113

abbrev pub psetex : ℕ
psetex = 117

abbrev pub setbit : ℕ
setbit = 118

abbrev pub setnx : ℕ
setnx = 120

abbrev pub setrange : ℕ
setrange = 121

abbrev pub pfadd : ℕ
pfadd = 123

abbrev pub setxx : ℕ
setxx = 126

abbrev pub hincr : ℕ
hincr = 154

abbrev pub hincrbyfloat : ℕ
hincrbyfloat = 155

abbrev pub hset : ℕ
hset = 160

abbrev pub hsetnx : ℕ
hsetnx = 161

abbrev pub append2 : ℕ
append2 = 1001

abbrev pub incrby2 : ℕ
incrby2 = 1002

abbrev pub incrbyfloat2 : ℕ
incrbyfloat2 = 1003

abbrev pub incr2 : ℕ
incr2 = 1004

abbrev pub decr2 : ℕ
decr2 = 1005

abbrev pub decrby2 : ℕ
decrby2 = 1006

abbrev pub setnx2 : ℕ
setnx2 = 1007

abbrev pub set2 : ℕ
set2 = 1008

abbrev pub setrange2 : ℕ
setrange2 = 1009

abbrev pub hset2 : ℕ
hset2 = 1010

abbrev pub hsetnx2 : ℕ
hsetnx2 = 1011

abbrev pub hincr2 : ℕ
hincr2 = 1013

abbrev pub hincrbyfloat2 : ℕ
hincrbyfloat2 = 1014

abbrev pub setbit2 : ℕ
setbit2 = 1028

abbrev pub pfadd2 : ℕ
pfadd2 = 1029
