-- ===== src/Keycodes/Extended.antt =====
-- Kernel/Drivers/Input/Keycodes.h: the numbers of the keys that were added later.
use Prim.Native.Nat.{ℕ}

abbrev pub key_lessthan : ℕ
key_lessthan = 86

abbrev pub key_f11 : ℕ
key_f11 = 87

abbrev pub key_f12 : ℕ
key_f12 = 88

abbrev pub key_hiragana : ℕ
key_hiragana = 91

abbrev pub key_henkan : ℕ
key_henkan = 92

abbrev pub key_katakanahiragana : ℕ
key_katakanahiragana = 93

abbrev pub key_muhenkan : ℕ
key_muhenkan = 94

abbrev pub key_numpad_enter : ℕ
key_numpad_enter = 96

abbrev pub key_rctrl : ℕ
key_rctrl = 97

abbrev pub key_numpad_slash : ℕ
key_numpad_slash = 98

abbrev pub key_printscreen : ℕ
key_printscreen = 99

abbrev pub key_ralt : ℕ
key_ralt = 100

abbrev pub key_home : ℕ
key_home = 102

abbrev pub key_up : ℕ
key_up = 103

abbrev pub key_pageup : ℕ
key_pageup = 104

abbrev pub key_left : ℕ
key_left = 105

abbrev pub key_right : ℕ
key_right = 106

abbrev pub key_end : ℕ
key_end = 107

abbrev pub key_down : ℕ
key_down = 108

abbrev pub key_pagedown : ℕ
key_pagedown = 109

abbrev pub key_insert : ℕ
key_insert = 110

abbrev pub key_delete : ℕ
key_delete = 111

abbrev pub key_mute : ℕ
key_mute = 113

abbrev pub key_volumedown : ℕ
key_volumedown = 114

abbrev pub key_volumeup : ℕ
key_volumeup = 115

abbrev pub key_power : ℕ
key_power = 116

abbrev pub key_pause : ℕ
key_pause = 119

abbrev pub key_yen : ℕ
key_yen = 124

abbrev pub key_lmeta : ℕ
key_lmeta = 125

abbrev pub key_rmeta : ℕ
key_rmeta = 126

abbrev pub key_stop : ℕ
key_stop = 128

abbrev pub key_copy : ℕ
key_copy = 133

abbrev pub key_paste : ℕ
key_paste = 135

abbrev pub key_cut : ℕ
key_cut = 137

abbrev pub key_menu : ℕ
key_menu = 139

abbrev pub key_calc : ℕ
key_calc = 140

abbrev pub key_sleep : ℕ
key_sleep = 142

abbrev pub key_wakeup : ℕ
key_wakeup = 143

abbrev pub key_mail : ℕ
key_mail = 155

abbrev pub key_bookmarks : ℕ
key_bookmarks = 156

abbrev pub key_computer : ℕ
key_computer = 157

abbrev pub key_back : ℕ
key_back = 158

abbrev pub key_forward : ℕ
key_forward = 159

abbrev pub key_nextsong : ℕ
key_nextsong = 163

abbrev pub key_playpause : ℕ
key_playpause = 164

abbrev pub key_previoussong : ℕ
key_previoussong = 165

abbrev pub key_stopcd : ℕ
key_stopcd = 166

abbrev pub key_homepage : ℕ
key_homepage = 172

abbrev pub key_refresh : ℕ
key_refresh = 173

abbrev pub key_f13 : ℕ
key_f13 = 183

abbrev pub key_f14 : ℕ
key_f14 = 184

abbrev pub key_f15 : ℕ
key_f15 = 185

abbrev pub key_f17 : ℕ
key_f17 = 187

abbrev pub key_f18 : ℕ
key_f18 = 188

abbrev pub key_f19 : ℕ
key_f19 = 189

abbrev pub key_f20 : ℕ
key_f20 = 190

abbrev pub key_f21 : ℕ
key_f21 = 191

abbrev pub key_f22 : ℕ
key_f22 = 192

abbrev pub key_f23 : ℕ
key_f23 = 193

abbrev pub key_f24 : ℕ
key_f24 = 194

abbrev pub key_search : ℕ
key_search = 217

abbrev pub key_media : ℕ
key_media = 226

abbrev pub key_ignore : ℕ
key_ignore = 0xffff_ffff
